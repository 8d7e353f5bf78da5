-- ===== src/Document/Cuts.antt =====
-- The cuts of backend/app/services/document_text.py: the two patterns, and the loop of `_hard_split`.
use mathlib.Core.List.{append-nil}
use support_flow.Prelude.{
  length-take, ℕ, zero, suc, ◌≤◌, ◌<◌, ◌≡◌, refl, ap, ◌∙◌, not, none, some, inl, inr, List, [], ◌∷◌,
  ◌++◌, ◌&&◌, ◌==◌, length, ltb, select-append, take, All, Bool-cases, Option-cases, arith,
}
use support_flow.Text.{Text, is_space, strip, visible, concat, drop, rfind}
use support_flow.Text.Space.{White, Blank, visible-strip, length-strip}
use support_flow.Document.{
  last_newline, paragraph_break, white_run, ends_sentence, sentence_end, cut_at, cut_pieces,
}

last_newline-White : (s : Text) (k : ℕ) → last_newline s ≡ some k → All White (take k s)
unfolding last_newline
last_newline-White [] k h = cc
last_newline-White (c ∷ s) k h = elim (Bool-cases (is_space c)) [
  | inr black ↦ let bad : none ≡ some k = rw black at h in cc
  | inl white ↦ elim (Option-cases (last_newline s)) [
    | inr (j, more) ↦
        let e : some (suc j) ≡ some k = rw (white, more) at h in
        let e' : suc j ≡ k = cc in rw (← e') (white, last_newline-White s j more)
    | inl no_more ↦ elim (Bool-cases (c == 10)) [
      | inl newline ↦
          let e : some 1 ≡ some k = rw (white, no_more, newline) at h in
          let e' : 1 ≡ k = cc in rw (← e') (white, tt)
      | inr other ↦ let bad : none ≡ some k = rw (white, no_more, other) at h in cc
    ]
  ]
]

pub paragraph_break-Blank : Blank paragraph_break
unfolding paragraph_break is_space
paragraph_break-Blank before c s more h = elim (Bool-cases (c == 10)) [
  | inl newline ↦ (ground (arith, newline), last_newline-White s more (rw newline at h))
  | inr other ↦ let bad : none ≡ some more = rw other at h in cc
]

white_run-White : (s : Text) → All White (take (white_run s) s)
unfolding white_run
white_run-White [] = tt
white_run-White (c ∷ s) = elim (Bool-cases (is_space c)) [
  | inl white ↦ rw white (white, white_run-White s)
  | inr black ↦ rw black tt
]

pub sentence_end-Blank : Blank sentence_end
unfolding sentence_end
sentence_end-Blank before c s more h = elim (Bool-cases (ends_sentence before && is_space c)) [
  | inl here ↦
      let e : some (white_run s) ≡ some more = rw here at h in
      let e' : white_run s ≡ more = cc in (ground (arith, here), rw (← e') (white_run-White s))
  | inr elsewhere ↦ let bad : none ≡ some more = rw elsewhere at h in cc
]

visible-take-drop : (n : ℕ) (s : Text) → visible (take n s) ++ visible (drop n s) ≡ visible s
unfolding drop
visible-take-drop zero s = refl
visible-take-drop (suc n) [] = refl
visible-take-drop (suc n) (c ∷ s) = ground (arith, visible-take-drop n s)

length-drop : (n : ℕ) (s : Text) → 1 ≤ n → n < length s → length (drop n s) < length s
unfolding drop
length-drop zero s h k = absurd (ground (arith, h))
length-drop (suc n) [] h k = ground (arith, k)
length-drop (suc zero) (c ∷ s) h k = ground arith
length-drop (suc (suc n)) (c ∷ s) h k = ground (arith, length-drop (suc n) s)

rfind-lt : (c n : ℕ) (s : Text) (i : ℕ) → rfind c n s ≡ some i → i < n
unfolding rfind
rfind-lt c zero s i h = cc
rfind-lt c (suc n) [] i h = cc
rfind-lt c (suc n) (d ∷ s) i h = elim (Option-cases (rfind c n s)) [
  | inr (j, found) ↦
      let e : some (suc j) ≡ some i = rw found at h in ground (arith, e, rfind-lt c n s j found)
  | inl missing ↦ ground (arith, rw missing at h)
]

cut_at_bounds : (limit : ℕ) (s : Text) → 1 ≤ limit → (1 ≤ cut_at limit s) × (cut_at limit s ≤ limit)
unfolding cut_at
cut_at_bounds limit s h = elim (Option-cases (rfind b' ' (suc limit) s)) [
  | inl missing ↦ rw missing (h, ground arith)
  | inr (zero, found) ↦ rw found (h, ground arith)
  | inr (suc i, found) ↦
      rw found (ground arith, ground (arith, rfind-lt b' ' (suc limit) s (suc i) found))
]

-- What the loop returns: parts within the limit that lose nothing visible.
abbrev pub Cut : ℕ → Text → List Text → Type 0
Cut limit s parts =
    (visible (concat parts) ≡ visible s) × All (λ (p : Text). length p ≤ limit) parts

Cut-cons :
    (limit cut : ℕ) (s : Text) (parts : List Text)
    → cut ≤ limit
    → Cut limit (strip (drop cut s)) parts
    → Cut limit s (strip (take cut s) ∷ parts)
Cut-cons limit cut s parts h (same, short) = (
  select-append (λ c. not (is_space c)) (strip (take cut s)) (concat parts)
      ∙ ap (λ (r : Text). visible (strip (take cut s)) ++ r) (same ∙ visible-strip (drop cut s))
      ∙ ap (λ (r : Text). r ++ visible (drop cut s)) (visible-strip (take cut s))
      ∙ visible-take-drop cut s,
  (ground (arith, length-strip (take cut s), length-take cut s), short),
)

-- With a limit of at least one character, the loop ends within as many rounds as the text has characters. The
-- parts that it returns are within the limit, and together they show what the text shows.
pub cut_pieces-Cut :
    (limit fuel : ℕ) (s : Text)
    → 1 ≤ limit
    → length s ≤ fuel
    → (parts : List Text) × (cut_pieces limit fuel s ≡ some parts) × Cut limit s parts
unfolding cut_pieces
cut_pieces-Cut limit zero s h enough = elim (Bool-cases (ltb limit (length s))) [
  | inl long ↦ absurd (ground (arith, long))
  | inr short ↦ (s ∷ [], rw short refl, (ap visible (append-nil s), (ground (arith, short), tt)))
]
cut_pieces-Cut limit (suc fuel) s h enough = elim (Bool-cases (ltb limit (length s))) [
  | inr short ↦ (s ∷ [], rw short refl, (ap visible (append-nil s), (ground (arith, short), tt)))
  | inl long ↦
      let (low, high) = cut_at_bounds limit s h in
      let shorter = length-drop (cut_at limit s) s low (ground (arith, long, high)) in
      let (parts, done, good) =
        cut_pieces-Cut limit fuel (strip (drop (cut_at limit s) s)) h
          (ground (arith, shorter, length-strip (drop (cut_at limit s) s))) in
      (
        strip (take (cut_at limit s) s) ∷ parts,
        rw (long, done) refl,
        Cut-cons limit (cut_at limit s) s parts high good,
      )
]
