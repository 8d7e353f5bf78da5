-- ===== src/Document/Passages.antt =====
-- The passages of backend/app/services/document_text.py: windows on the segments, and how long they are.
use mathlib.Core.List.{append_assoc, append-nil, reverse, reverse-cons, reverse-reverse}
use support_flow.Prelude.{
  ℕ, suc, ◌+◌, ◌≤◌, ◌≡◌, refl, sym, ap, ◌∙◌, subst, inl, inr, List, [], ◌∷◌, ◌++◌, length, ltb,
  Bool-cases, arith,
}
use support_flow.Text.{Text}
use support_flow.Document.{
  chunk_overlap_tokens, estimated_tokens, TextChunk, as_chunk, take_overlap, overlap_tail,
  overflows, assemble, segments, chunk, Reading, read, max_chunks,
}

-- The tokens of some segments, one by one.
abbrev pub cost : List Text → ℕ
cost [] = 0
cost (s ∷ parts) = estimated_tokens s + cost parts

-- `parts` ends with `tail`.
abbrev pub EndsWith : List Text → List Text → Type 0
EndsWith tail parts = (front : List Text) × (parts ≡ front ++ tail)

-- The chunks numbered from `index` on are windows on the segments: each opens with segments that end the
-- window before it, of 100 tokens at most, goes on with at least one segment that no window had, and its
-- text and its count are those of the two joined. Together the new segments are all the segments.
pub data Windows : ℕ → List Text → List Text → List TextChunk → Type 0 where
  finished : (index : ℕ) (previous : List Text) → Windows index previous [] []
  window :
      (index : ℕ) (previous overlap fresh rest parts : List Text) (chunks : List TextChunk)
      → EndsWith overlap previous
      → cost overlap ≤ chunk_overlap_tokens
      → 1 ≤ length fresh
      → parts ≡ fresh ++ rest
      → Windows (suc index) (overlap ++ fresh) rest chunks
      → Windows index previous parts (as_chunk index (overlap ++ fresh) ∷ chunks)

pub reverse-cons_append :
    (s : Text) (reversed tail : List Text)
    → reverse (s ∷ reversed) ++ tail ≡ reverse reversed ++ s ∷ tail
reverse-cons_append s reversed tail =
    ap (λ (r : List Text). r ++ tail) (reverse-cons s reversed)
    ∙ append_assoc (reverse reversed) (s ∷ []) tail

take_overlap-EndsWith :
    (reversed : List Text) (total : ℕ) (tail : List Text)
    → EndsWith (take_overlap reversed total tail) (reverse reversed ++ tail)
unfolding take_overlap
take_overlap-EndsWith [] total tail = ([], refl)
take_overlap-EndsWith (s ∷ reversed) total tail =
    elim (Bool-cases (ltb chunk_overlap_tokens (total + estimated_tokens s))) [
      | inl full ↦ rw full (reverse (s ∷ reversed), refl)
      | inr room ↦
          let (front, e) = take_overlap-EndsWith reversed (total + estimated_tokens s) (s ∷ tail) in
          rw room (front, reverse-cons_append s reversed tail ∙ e)
    ]

pub overlap_tail-EndsWith : (parts : List Text) → EndsWith (overlap_tail parts) parts
unfolding overlap_tail
overlap_tail-EndsWith parts =
    let (front, e) = take_overlap-EndsWith (reverse parts) 0 [] in
    (
      front,
      sym (append-nil parts) ∙ ap (λ (r : List Text). r ++ []) (sym (reverse-reverse parts)) ∙ e,
    )

take_overlap-cost :
    (reversed : List Text) (total : ℕ) (tail : List Text)
    → cost tail ≡ total
    → total ≤ chunk_overlap_tokens
    → cost (take_overlap reversed total tail) ≤ chunk_overlap_tokens
unfolding take_overlap
take_overlap-cost [] total tail e h = ground (arith, h, e)
take_overlap-cost (s ∷ reversed) total tail e h =
    elim (Bool-cases (ltb chunk_overlap_tokens (total + estimated_tokens s))) [
      | inl full ↦ rw full (ground (arith, h, e))
      | inr room ↦ rw room (
          take_overlap-cost reversed (total + estimated_tokens s) (s ∷ tail) (omega (arith, e))
            (ground (arith, room)))
    ]

pub overlap_tail-cost : (parts : List Text) → cost (overlap_tail parts) ≤ chunk_overlap_tokens
unfolding overlap_tail
overlap_tail-cost parts = take_overlap-cost (reverse parts) 0 [] refl (ground arith)

pub snoc-cons :
    (xs : List Text) (x : Text) → (p : Text) × ((b : List Text) × (xs ++ x ∷ [] ≡ p ∷ b))
snoc-cons [] x = (x, ([], refl))
snoc-cons (y ∷ xs) x = (y, (xs ++ x ∷ [], refl))

length-snoc : (xs : List Text) (x : Text) → 1 ≤ length (xs ++ x ∷ [])
length-snoc [] x = ground arith
length-snoc (y ∷ xs) x = ground arith

assemble-Windows :
    (index : ℕ) (previous overlap fresh : List Text) (p : Text) (b rest : List Text)
    → p ∷ b ≡ overlap ++ fresh
    → 1 ≤ length fresh
    → EndsWith overlap previous
    → cost overlap ≤ chunk_overlap_tokens
    → Windows index previous (fresh ++ rest) (assemble index (p ∷ b) rest)
unfolding assemble
assemble-Windows index previous overlap fresh p b [] e new ends small =
    subst (λ (c : List Text). Windows index previous (fresh ++ []) (as_chunk index c ∷ [])) (sym e)
      (Windows.window index previous overlap fresh [] _ [] ends small new refl
        (Windows.finished _ _))
assemble-Windows index previous overlap fresh p b (t ∷ rest) e new ends small =
    elim (Bool-cases (overflows (p ∷ b) t)) [
      | inl full ↦
          let (q, (b', e')) = snoc-cons (overlap_tail (p ∷ b)) t in
          let later =
            assemble-Windows (suc index) (p ∷ b) (overlap_tail (p ∷ b)) (t ∷ []) q b' rest (sym e')
              (ground arith) (overlap_tail-EndsWith (p ∷ b)) (overlap_tail-cost (p ∷ b)) in
          let chunks = assemble (suc index) (overlap_tail (p ∷ b) ++ t ∷ []) rest in
          let opened : Windows (suc index) (p ∷ b) (t ∷ rest) chunks = rw e' later in
          rw (full, assemble)
            (subst
              (λ (c : List Text).
                Windows index previous (fresh ++ t ∷ rest) (as_chunk index c ∷ chunks))
              (sym e)
              (Windows.window index previous overlap fresh (t ∷ rest) _ chunks ends small new refl
                (subst (λ (c : List Text). Windows (suc index) c (t ∷ rest) chunks) e opened)))
      | inr room ↦
          rw (room, assemble)
            (subst
              (λ (r : List Text).
                Windows index previous r (assemble index (p ∷ (b ++ t ∷ [])) rest))
              (append_assoc fresh (t ∷ []) rest)
              (assemble-Windows index previous overlap (fresh ++ t ∷ []) p (b ++ t ∷ []) rest
                (ap (λ (r : List Text). r ++ t ∷ []) e ∙ append_assoc overlap fresh (t ∷ []))
                (length-snoc fresh t) ends small))
    ]

all-Windows : (parts : List Text) → Windows 0 [] parts (assemble 0 [] parts)
unfolding assemble
all-Windows [] = Windows.finished 0 []
all-Windows (s ∷ parts) =
    assemble-Windows 0 [] [] (s ∷ []) s [] parts refl (ground arith) ([], refl) (ground arith)

-- The passages of a document that is not refused are overlapping windows on its segments, which all of them
-- together cover in order.
pub chunk-Windows :
    (text : Text) (chunks : List TextChunk)
    → chunk text ≡ read chunks
    → Windows 0 [] (segments text) chunks
unfolding chunk
chunk-Windows text chunks h =
    let made = assemble 0 [] (segments text) in
    elim (Bool-cases (ltb max_chunks (length made))) [
      | inl many ↦ let bad : Reading.refused _ ≡ read chunks = rw many at h in cc
      | inr few ↦
          let e : read made ≡ read chunks = rw few at h in
          let e' : made ≡ chunks = cc in
          subst (λ (c : List TextChunk). Windows 0 [] (segments text) c) e'
            (all-Windows (segments text))
    ]
