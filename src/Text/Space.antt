-- ===== src/Text/Space.antt =====
-- What stripping and splitting leave of a text: all that is not white.
use mathlib.Core.List.{append-nil}
use support_flow.Prelude.{
  ℕ, zero, suc, ◌≤◌, ◌≡◌, refl, sym, ap, ◌∙◌, true, not, Option, some, inl, inr, [], ◌∷◌, ◌++◌,
  length, select-append, take, All, Bool-cases, Option-cases, arith, if◌then◌else◌,
}
use support_flow.Text.{
  Text, is_space, lstrip, keep_before, rstrip, strip, visible, concat, split_by,
}

visible-lstrip : (s : Text) → visible (lstrip s) ≡ visible s
unfolding lstrip
visible-lstrip [] = refl
visible-lstrip (c ∷ s) = elim (Bool-cases (is_space c)) [
  | inl white ↦ rw white (visible-lstrip s)
  | inr black ↦ rw (black, black) refl
]

visible-keep_before : (c : ℕ) (s : Text) → visible (keep_before c s) ≡ visible (c ∷ s)
visible-keep_before c [] = elim (Bool-cases (is_space c)) [
  | inl white ↦ rw white refl
  | inr black ↦ rw (black, black) refl
]
visible-keep_before c (d ∷ s) = refl

pub visible-rstrip : (s : Text) → visible (rstrip s) ≡ visible s
unfolding rstrip
visible-rstrip [] = refl
visible-rstrip (c ∷ s) =
    visible-keep_before c (rstrip s)
    ∙ ap (λ (r : Text). if not (is_space c) then c ∷ r else r) (visible-rstrip s)

pub visible-strip : (s : Text) → visible (strip s) ≡ visible s
unfolding strip
visible-strip s = visible-rstrip (lstrip s) ∙ visible-lstrip s

length-lstrip : (s : Text) → length (lstrip s) ≤ length s
unfolding lstrip
length-lstrip [] = ground arith
length-lstrip (c ∷ s) = ground (arith, length-lstrip s)

length-keep_before : (c : ℕ) (s : Text) → length (keep_before c s) ≤ suc (length s)
length-keep_before c [] = ground arith
length-keep_before c (d ∷ s) = ground arith

length-rstrip : (s : Text) → length (rstrip s) ≤ length s
unfolding rstrip
length-rstrip [] = ground arith
length-rstrip (c ∷ s) = ground (arith, length-keep_before c (rstrip s), length-rstrip s)

pub length-strip : (s : Text) → length (strip s) ≤ length s
unfolding strip
length-strip s = ground (arith, length-rstrip (lstrip s), length-lstrip s)

abbrev pub White : ℕ → Type 0
White c = is_space c ≡ true

-- A pattern that takes white characters only.
abbrev pub Blank : (Option ℕ → Text → Option ℕ) → Type 0
Blank matches =
    (before : Option ℕ) (c : ℕ) (s : Text) (more : ℕ)
    → matches before (c ∷ s) ≡ some more
    → White c × All White (take more s)

pub visible-append : (s t : Text) → visible (s ++ t) ≡ visible s ++ visible t
visible-append s t = select-append (λ c. not (is_space c)) s t

visible-White : (c : ℕ) (s : Text) → White c → visible (c ∷ s) ≡ visible s
visible-White c s white = rw white refl

visible_snoc :
    (p : Text) (c : ℕ) (s : Text)
    → visible (p ++ c ∷ []) ++ visible s ≡ visible p ++ visible (c ∷ s)
visible_snoc [] c s = ground arith
visible_snoc (d ∷ p) c s = ground (arith, visible_snoc p c s)

-- Splitting by blanks loses no visible character, and leaves their order.
pub visible-split_by :
    (matches : Option ℕ → Text → Option ℕ) (before : Option ℕ) (skip : ℕ) (piece s : Text)
    → Blank matches
    → All White (take skip s)
    → visible (concat (split_by matches before skip piece s)) ≡ visible piece ++ visible s
unfolding split_by
visible-split_by matches before zero piece [] blank h = simp (append-nil)
visible-split_by matches before (suc skip) piece [] blank h = simp (append-nil)
visible-split_by matches before (suc skip) piece (c ∷ s) blank h =
    visible-split_by matches (some c) skip piece s blank h.1
    ∙ ap (λ (r : Text). visible piece ++ r) (sym (visible-White c s h.0))
visible-split_by matches before zero piece (c ∷ s) blank h =
    elim (Option-cases (matches before (c ∷ s))) [
      | inl no_match ↦
          rw (no_match, concat)
            (visible-split_by matches (some c) 0 (piece ++ c ∷ []) s blank tt
              ∙ visible_snoc piece c s)
      | inr (more, found) ↦
          let (white, rest) = blank before c s more found in
          rw (found, concat)
            (select-append (λ d. not (is_space d)) piece _
              ∙ ap (λ (r : Text). visible piece ++ r)
                  (visible-split_by matches (some c) more [] s blank rest
                    ∙ sym (visible-White c s white)))
    ]
