-- ===== src/Document/Sizes.antt =====
-- How long the passages of backend/app/services/document_text.py are.
use mathlib.Core.List.{append-nil, reverse, reverse-cons, reverse-reverse}
use support_flow.Prelude.{
  ℕ, suc, ◌+◌, ◌*◌, ◌≤◌, ◌<◌, ◌≡◌, refl, sym, ap, ◌∙◌, subst, true, false, inl, inr, List, [], ◌∷◌,
  ◌++◌, length, ltb, All, All-append, Bool-cases, arith,
}
use support_flow.Text.{Text, join_paragraphs}
use support_flow.Document.{
  chunk_overlap_tokens, chunk_target_tokens, estimated_tokens, TextChunk, joined_tokens, as_chunk,
  take_overlap, overlap_tail, overflows, assemble, segments, chunk, Reading, read, max_chunks,
}
use support_flow.Document.Segments.{IsSegment, segments-Segmented}
use support_flow.Document.Passages.{
  cost, overlap_tail-EndsWith, overlap_tail-cost, snoc-cons, reverse-cons_append,
}

-- The characters of some segments, each with the blank line behind it.
abbrev total : List Text → ℕ
total [] = 0
total (p ∷ parts) = length p + 2 + total parts

length-append : (s t : Text) → length (s ++ t) ≡ length s + length t
length-append [] t = omega arith
length-append (c ∷ s) t = omega (arith, length-append s t)

length-join :
    (parts : List Text) (s : Text)
    → length (join_paragraphs (parts ++ s ∷ [])) ≡ total parts + length s
unfolding join_paragraphs
length-join [] s = omega arith
length-join (p ∷ []) s = rw (length-append p (10 ∷ 10 ∷ s)) (omega arith)
length-join (p ∷ q ∷ parts) s =
    rw (length-append p (10 ∷ 10 ∷ join_paragraphs (q ∷ (parts ++ s ∷ []))))
      (omega (arith, length-join (q ∷ parts) s))

length-join_head : (p : Text) (parts : List Text) → length p ≤ length (join_paragraphs (p ∷ parts))
unfolding join_paragraphs
length-join_head p [] = omega arith
length-join_head p (q ∷ parts) =
    rw (length-append p (10 ∷ 10 ∷ join_paragraphs (q ∷ parts))) (omega arith)

length-joined :
    (p : Text) (parts : List Text) → length (join_paragraphs (p ∷ parts)) ≤ total (p ∷ parts)
unfolding join_paragraphs
length-joined p [] = omega arith
length-joined p (q ∷ parts) =
    rw (length-append p (10 ∷ 10 ∷ join_paragraphs (q ∷ parts)))
      (omega (arith, length-joined q parts))

total-cost : (parts : List Text) → All IsSegment parts → total parts ≤ 6 * cost parts
total-cost [] h = omega arith
total-cost (p ∷ parts) h = omega (arith, total-cost parts h.1)

All-tail : (xs ys : List Text) → All IsSegment (xs ++ ys) → All IsSegment ys
All-tail [] ys h = h
All-tail (x ∷ xs) ys h = All-tail xs ys h.1

overlap_tail-IsSegment :
    (parts : List Text) → All IsSegment parts → All IsSegment (overlap_tail parts)
overlap_tail-IsSegment parts h =
    let (front, e) = overlap_tail-EndsWith parts in
    All-tail front (overlap_tail parts) (subst (λ (r : List Text). All IsSegment r) e h)

opened-le :
    (parts : List Text) (s : Text)
    → All IsSegment parts
    → IsSegment s
    → joined_tokens (overlap_tail parts ++ s ∷ []) ≤ 850
unfolding joined_tokens
opened-le parts s h hs = omega (
  arith,
  length-join (overlap_tail parts) s,
  total-cost (overlap_tail parts) (overlap_tail-IsSegment parts h),
  overlap_tail-cost parts,
)

-- The token count of a chunk that the column accepts, and that is at most 850.
abbrev pub IsSized : TextChunk → Type 0
IsSized c = (1 ≤ c.token_count) × (c.token_count ≤ 850)

as_chunk-IsSized :
    (index : ℕ) (p : Text) (buffer : List Text)
    → IsSegment p
    → joined_tokens (p ∷ buffer) ≤ 850
    → IsSized (as_chunk index (p ∷ buffer))
unfolding as_chunk joined_tokens
as_chunk-IsSized index p buffer h small = (omega (arith, length-join_head p buffer), small)

assemble-IsSized :
    (index : ℕ) (p : Text) (buffer rest : List Text)
    → All IsSegment (p ∷ buffer)
    → joined_tokens (p ∷ buffer) ≤ 850
    → All IsSegment rest
    → All IsSized (assemble index (p ∷ buffer) rest)
unfolding assemble
assemble-IsSized index p buffer [] h small hr = (as_chunk-IsSized index p buffer h.0 small, tt)
assemble-IsSized index p buffer (t ∷ rest) h small hr =
    elim (Bool-cases (overflows (p ∷ buffer) t)) [
      | inl full ↦
          let (q, (b, e)) = snoc-cons (overlap_tail (p ∷ buffer)) t in
          let kept : All IsSegment (overlap_tail (p ∷ buffer) ++ t ∷ []) =
            All-append IsSegment (overlap_tail (p ∷ buffer)) (t ∷ [])
              (overlap_tail-IsSegment (p ∷ buffer) h) (hr.0, tt) in
          let bound = opened-le (p ∷ buffer) t h hr.0 in
          rw (full, assemble)
            (
              as_chunk-IsSized index p buffer h.0 small,
              rw e (assemble-IsSized (suc index) q b rest (rw e at kept) (rw e at bound) hr.1),
            )
      | inr room ↦
          rw (room, assemble)
            (assemble-IsSized index p (buffer ++ t ∷ []) rest
              (All-append IsSegment (p ∷ buffer) (t ∷ []) h (hr.0, tt)) (ground (arith, room)) hr.1)
    ]

first-IsSized : (parts : List Text) → All IsSegment parts → All IsSized (assemble 0 [] parts)
unfolding assemble joined_tokens join_paragraphs
first-IsSized [] h = tt
first-IsSized (s ∷ parts) h = assemble-IsSized 0 s [] parts (h.0, tt) (ground (arith, h.0)) h.1

-- A document that is not refused has at most 500 passages, each of at least one and at most 850 estimated
-- tokens.
pub chunk-IsSized :
    (text : Text) (chunks : List TextChunk)
    → chunk text ≡ read chunks
    → (length chunks ≤ max_chunks) × All IsSized chunks
unfolding chunk
chunk-IsSized text chunks h =
    let made = assemble 0 [] (segments text) in
    elim (Bool-cases (ltb max_chunks (length made))) [
      | inl many ↦ let bad : Reading.refused _ ≡ read chunks = rw many at h in cc
      | inr few ↦
          let e : read made ≡ read chunks = rw few at h in
          let e' : made ≡ chunks = cc in
          subst (λ (c : List TextChunk). (length c ≤ max_chunks) × All IsSized c) e'
            (ground (arith, few), first-IsSized (segments text) (segments-Segmented text).1)
    ]

take_overlap_all :
    (reversed : List Text) (sum : ℕ) (tail : List Text)
    → sum + cost reversed ≤ chunk_overlap_tokens
    → take_overlap reversed sum tail ≡ reverse reversed ++ tail
unfolding take_overlap
take_overlap_all [] sum tail h = refl
take_overlap_all (s ∷ reversed) sum tail h =
    let room : ltb chunk_overlap_tokens (sum + estimated_tokens s) ≡ false = ground (arith, h) in
    rw room (
      take_overlap_all reversed (sum + estimated_tokens s) (s ∷ tail) (omega (arith, h))
      ∙ sym (reverse-cons_append s reversed tail))

cost-append : (xs ys : List Text) → cost (xs ++ ys) ≡ cost xs + cost ys
cost-append [] ys = omega arith
cost-append (x ∷ xs) ys = omega (arith, cost-append xs ys)

cost-reverse : (xs : List Text) → cost (reverse xs) ≡ cost xs
cost-reverse [] = refl
cost-reverse (x ∷ xs) =
    ap cost (reverse-cons x xs) ∙ omega (arith, cost-append (reverse xs) (x ∷ []), cost-reverse xs)

overlap_tail_all :
    (parts : List Text) → cost parts ≤ chunk_overlap_tokens → overlap_tail parts ≡ parts
unfolding overlap_tail
overlap_tail_all parts h =
    take_overlap_all (reverse parts) 0 [] (omega (arith, cost-reverse parts))
    ∙ append-nil (reverse (reverse parts))
    ∙ reverse-reverse parts

-- A buffer that is over the bound takes no further segment.
overfull-assemble :
    (index : ℕ) (p : Text) (buffer rest : List Text)
    → chunk_target_tokens < joined_tokens (p ∷ buffer)
    → (more : List TextChunk) × (assemble index (p ∷ buffer) rest
        ≡ as_chunk index (p ∷ buffer) ∷ more)
unfolding assemble joined_tokens
overfull-assemble index p buffer [] long = ([], refl)
overfull-assemble index p buffer (t ∷ rest) long =
    let grows = length-join (p ∷ buffer) t in
    let full : overflows (p ∷ buffer) t ≡ true =
      ground (arith, long, length-join (p ∷ buffer) t, length-joined p buffer) in
    (assemble (suc index) (overlap_tail (p ∷ buffer) ++ t ∷ []) rest, rw (full, assemble) refl)

-- The bound of 800 is missed. Where a chunk is closed because the next segment does not fit, and the estimates
-- of the chunk's segments sum to at most 100 tokens, the chunk after it repeats all of its segments, holds the
-- segment that did not fit behind them, and has more than 800 tokens; whatever segments follow.
pub assemble-overfull :
    (index : ℕ) (p : Text) (buffer : List Text) (s : Text) (rest : List Text)
    → cost (p ∷ buffer) ≤ chunk_overlap_tokens
    → chunk_target_tokens < joined_tokens ((p ∷ buffer) ++ s ∷ [])
    → (more : List TextChunk) × ((assemble index (p ∷ buffer) (s ∷ rest)
          ≡ as_chunk index (p ∷ buffer) ∷ as_chunk (suc index) ((p ∷ buffer) ++ s ∷ []) ∷ more)
        × (chunk_target_tokens < (as_chunk (suc index) ((p ∷ buffer) ++ s ∷ [])).token_count))
unfolding assemble as_chunk joined_tokens
assemble-overfull index p buffer s rest small long =
    let full : overflows (p ∷ buffer) s ≡ true = ground (arith, long) in
    let (more, next) = overfull-assemble (suc index) p (buffer ++ s ∷ []) rest long in
    (
      more,
      (
        rw (full, assemble)
            (ap
                (λ (r : List Text).
                  as_chunk index (p ∷ buffer) ∷ assemble (suc index) (r ++ s ∷ []) rest)
                (overlap_tail_all (p ∷ buffer) small)
              ∙ ap (λ (r : List TextChunk). as_chunk index (p ∷ buffer) ∷ r) next),
        long,
      ),
    )
