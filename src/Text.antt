-- ===== src/Text.antt =====
-- Python's `str` as the backend's text code uses it: a text is the list of its code points.
pub mod Space
pub mod Utf8
use Prim.Native.Char.{code}
use support_flow.Prelude.{
  ℕ, zero, suc, ◌+◌, ◌-◌, String, Bool, true, false, not, Option, none, some, List, [], ◌∷◌, ◌++◌,
  ◌&&◌, ◌||◌, ◌==◌, leb, select, if◌then◌else◌,
}

abbrev pub Text : Type 0
Text = List ℕ

-- The code points of a literal.
abbrev pub codes : String → Text
codes String.[] = []
codes (String.◌∷◌ c s) = code c ∷ codes s

abbrev pub within : ℕ → ℕ → ℕ → Bool
within lo hi c = leb lo c && leb c hi

-- `str.isspace` of one character, which is also what `\s` matches.
unfoldable pub is_space : ℕ → Bool
is_space c =
    within 9 13 c
    || within 28 32 c
    || c == 133
    || c == 160
    || c == 5760
    || within 8192 8202 c
    || within 8232 8233 c
    || c == 8239
    || c == 8287
    || c == 12288

unfoldable pub lstrip : Text → Text
lstrip [] = []
lstrip (c ∷ s) = if is_space c then lstrip s else c ∷ s

-- A character is kept if it is not white, or if something is kept behind it.
abbrev pub keep_before : ℕ → Text → Text
keep_before c [] = if is_space c then [] else c ∷ []
keep_before c (d ∷ s) = c ∷ d ∷ s

unfoldable pub rstrip : Text → Text
rstrip [] = []
rstrip (c ∷ s) = keep_before c (rstrip s)

unfoldable pub strip : Text → Text
unfolding lstrip rstrip
strip s = rstrip (lstrip s)

-- The characters that are not white.
abbrev pub visible : Text → Text
visible s = select (λ c. not (is_space c)) s

module _ {ℓ} {A : Type ℓ} where
  abbrev pub concat : List (List A) → List A
  concat [] = []
  concat (xs ∷ xss) = xs ++ concat xss

-- `"\n\n".join`
unfoldable pub join_paragraphs : List Text → Text
join_paragraphs [] = []
join_paragraphs (p ∷ []) = p
join_paragraphs (p ∷ q ∷ ps) = p ++ (10 ∷ 10 ∷ join_paragraphs (q ∷ ps))

-- `re.split` by a pattern without groups that matches no empty text. `matches before rest` is how many
-- characters behind its first the match at `rest` takes, where `before` is the character in front of it.
unfoldable pub split_by : (Option ℕ → Text → Option ℕ) → Option ℕ → ℕ → Text → Text → List Text
split_by matches before skip piece [] = piece ∷ []
split_by matches before (suc skip) piece (c ∷ s) = split_by matches (some c) skip piece s
split_by matches before zero piece (c ∷ s) = elim (matches before (c ∷ s)) [
  | none ↦ split_by matches (some c) 0 (piece ++ c ∷ []) s
  | some more ↦ piece ∷ split_by matches (some c) more [] s
]

-- `s[n:]`
unfoldable pub drop : {A : Type 0} → ℕ → List A → List A
drop zero s = s
drop (suc n) [] = []
drop (suc n) (c ∷ s) = drop n s

-- `s.rfind(c, 0, n)`
unfoldable pub rfind : ℕ → ℕ → Text → Option ℕ
rfind c zero s = none
rfind c (suc n) [] = none
rfind c (suc n) (d ∷ s) = elim (rfind c n s) [
  | some i ↦ some (suc i)
  | none ↦ if d == c then some 0 else none
]
