-- ===== src/FileValidation/Names.antt =====
-- The names that `sanitize_filename` of backend/app/core/file_validation.py gives.
use support_flow.Prelude.{
  length-take, ℕ, ◌≤◌, ◌≡◌, refl, Bool, true, false, not, inl, inr, [], ◌∷◌, ◌&&◌, ◌==◌, select,
  length, All, All-select, All-take, Bool-cases, arith,
}
use support_flow.Text.{Text, strip, lstrip, rstrip, keep_before, is_space}
use support_flow.Document.Clean.{is_control}
use support_flow.FileValidation.{max_filename_length, strip_dots, is_kept, named, sanitize_filename}

-- A character that neither ends a quoted name nor breaks a header.
abbrev pub IsHarmless : ℕ → Type 0
IsHarmless c = (not (is_control c) && not (c == b'"') && not (c == b'\\')) ≡ true

lstrip-All : (s : Text) → All IsHarmless s → All IsHarmless (lstrip s)
unfolding lstrip
lstrip-All [] h = tt
lstrip-All (c ∷ s) h = elim (Bool-cases (is_space c)) [
  | inl e ↦ rw e (lstrip-All s h.1)
  | inr e ↦ rw e h
]

keep_before-All :
    (c : ℕ) (s : Text) → IsHarmless c → All IsHarmless s → All IsHarmless (keep_before c s)
keep_before-All c [] h hs = elim (Bool-cases (is_space c)) [
  | inl e ↦ rw e tt
  | inr e ↦ rw e (h, tt)
]
keep_before-All c (d ∷ s) h hs = (h, hs)

rstrip-All : (s : Text) → All IsHarmless s → All IsHarmless (rstrip s)
unfolding rstrip
rstrip-All [] h = tt
rstrip-All (c ∷ s) h = keep_before-All c (rstrip s) h.0 (rstrip-All s h.1)

strip_dots-All : (s : Text) → All IsHarmless s → All IsHarmless (strip_dots s)
unfolding strip_dots
strip_dots-All [] h = tt
strip_dots-All (c ∷ s) h = elim (Bool-cases (c == b'.')) [
  | inl e ↦ rw e (strip_dots-All s h.1)
  | inr e ↦ rw e h
]

-- A hidden file's name.
abbrev pub is_hidden : Text → Bool
is_hidden [] = false
is_hidden (c ∷ s) = c == b'.'

strip_dots-shown : (s : Text) → is_hidden (strip_dots s) ≡ false
unfolding strip_dots
strip_dots-shown [] = refl
strip_dots-shown (c ∷ s) = elim (Bool-cases (c == b'.')) [
  | inl e ↦ rw e (strip_dots-shown s)
  | inr e ↦ rw (e, e) refl
]

-- A name to show: with a character, no longer than its column, not hidden, and harmless in a header.
abbrev pub IsSafe : Text → Type 0
IsSafe s =
    (1 ≤ length s) × (length s ≤ max_filename_length) × (is_hidden s ≡ false) × All IsHarmless s

named-IsSafe : (s : Text) → is_hidden s ≡ false → All IsHarmless s → IsSafe (named s)
unfolding is_control
named-IsSafe [] shown h = (
  omega arith,
  omega arith,
  refl,
  (refl, (refl, (refl, (refl, (refl, (refl, (refl, (refl, (refl, (refl, tt)))))))))),
)
named-IsSafe (c ∷ s) shown h =
    (ground arith, length-take 255 (c ∷ s), shown, All-take IsHarmless 255 (c ∷ s) h)

-- Whatever a client calls its file, the name that is kept has between one and 255 characters, does not begin
-- with a dot, and has no control character, quote or backslash.
pub sanitize_filename-IsSafe :
    (is_format : ℕ → Bool) (basename : Text) → IsSafe (sanitize_filename is_format basename)
unfolding sanitize_filename strip
sanitize_filename-IsSafe is_format basename =
    let kept = select (is_kept is_format) basename in
    named-IsSafe (strip_dots (strip kept)) (strip_dots-shown (strip kept)) (
      strip_dots-All (strip kept) (
        rstrip-All (lstrip kept) (
          lstrip-All kept
            (All-select IsHarmless (is_kept is_format) basename (λ c e. ground (arith, e))))))
