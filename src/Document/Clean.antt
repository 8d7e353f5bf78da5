-- ===== src/Document/Clean.antt =====
-- `clean` of backend/app/services/document_text.py.
use mathlib.Core.List.{append-nil}
use support_flow.Prelude.{
  ℕ, suc, ◌≡◌, refl, sym, ap, ◌∙◌, subst, Bool, true, false, not, inl, inr, List, [], ◌∷◌, ◌++◌,
  map, ◌&&◌, ◌||◌, ◌==◌, leb, ltb, select, Bool-cases, arith, if◌then◌else◌,
}
use support_flow.Text.{Text, within, is_space, strip, visible, concat}
use support_flow.Text.Space.{visible-append, visible-strip}

-- Category `Cc`.
unfoldable pub is_control : ℕ → Bool
is_control c = leb c 31 || within 127 159 c

abbrev starts_line_feed : Text → Bool
starts_line_feed [] = false
starts_line_feed (c ∷ s) = c == 10

-- `.replace("\r\n", "\n")`
unfoldable pub merge_crlf : Text → Text
merge_crlf [] = []
merge_crlf (c ∷ s) =
    let rest = merge_crlf s in if c == 13 && starts_line_feed s then rest else c ∷ rest

-- `.replace` of one character by another.
abbrev pub replace_char : ℕ → ℕ → Text → Text
replace_char a b s = map (λ c. if c == a then b else c) s

unfoldable pub drop_controls : Text → Text
drop_controls s = select (λ c. is_space c || not (is_control c)) s

-- `_HORIZONTAL_SPACE.sub(" ", text)`; the flag says that the run has its blank already.
unfoldable pub collapse_blanks : Bool → Text → Text
collapse_blanks in_run [] = []
collapse_blanks in_run (c ∷ s) =
    let rest = collapse_blanks (is_space c && not (c == 10)) s in
    if is_space c && not (c == 10) then (if in_run then rest else b' ' ∷ rest) else c ∷ rest

abbrev grow_line : ℕ → List Text → List Text
grow_line c [] = (c ∷ []) ∷ []
grow_line c (l ∷ ls) = (c ∷ l) ∷ ls

-- `.split("\n")`
unfoldable pub split_lines : Text → List Text
split_lines [] = [] ∷ []
split_lines (c ∷ s) = let rest = split_lines s in if c == 10 then [] ∷ rest else grow_line c rest

-- `"\n".join`
unfoldable pub join_lines : List Text → Text
join_lines [] = []
join_lines (l ∷ []) = l
join_lines (l ∷ m ∷ ls) = l ++ (10 ∷ join_lines (m ∷ ls))

-- `_BLANK_RUN.sub("\n\n", text)`; the number is how many line feeds stand just before.
unfoldable pub collapse_lines : ℕ → Text → Text
collapse_lines before [] = []
collapse_lines before (c ∷ s) =
    let rest = collapse_lines (if c == 10 then suc before else 0) s in
    if c == 10 && not (ltb before 2) then rest else c ∷ rest

unfoldable pub clean : Text → Text
unfolding merge_crlf drop_controls collapse_blanks split_lines join_lines collapse_lines
clean text =
    let unified = replace_char 13 10 (merge_crlf text) in
    let printable = replace_char 160 32 (drop_controls unified) in
    let blanks = collapse_blanks false printable in
    strip (collapse_lines 0 (join_lines (map strip (split_lines blanks))))

white_at : (a c : ℕ) → is_space a ≡ true → (c == a) ≡ true → is_space c ≡ true
white_at a c h e = subst (λ (x : ℕ). is_space x ≡ true) (ground (arith, e)) h

white_feed : is_space 10 ≡ true
unfolding is_space
white_feed = refl

white_return : is_space 13 ≡ true
unfolding is_space
white_return = refl

white_blank : is_space 32 ≡ true
unfolding is_space
white_blank = refl

white_no_break : is_space 160 ≡ true
unfolding is_space
white_no_break = refl

visible-merge_crlf : (s : Text) → visible (merge_crlf s) ≡ visible s
unfolding merge_crlf
visible-merge_crlf [] = refl
visible-merge_crlf (c ∷ s) = ground (arith, visible-merge_crlf s, white_at 13 c white_return)

-- A replacement of a white character by a white one shows nowhere.
visible-replace_char :
    (a b : ℕ) (s : Text)
    → is_space a ≡ true
    → is_space b ≡ true
    → visible (replace_char a b s) ≡ visible s
visible-replace_char a b [] h k = refl
visible-replace_char a b (c ∷ s) h k = elim (Bool-cases (c == a)) [
  | inl same ↦ rw (same, k, white_at a c h same) (visible-replace_char a b s h k)
  | inr other ↦
      rw other
        (ap (λ (r : Text). if not (is_space c) then c ∷ r else r) (visible-replace_char a b s h k))
]

visible-drop_controls :
    (s : Text) → visible (drop_controls s) ≡ select (λ c. not (is_control c)) (visible s)
unfolding drop_controls
visible-drop_controls [] = refl
visible-drop_controls (c ∷ s) = ground (arith, visible-drop_controls s)

visible-collapse_blanks :
    (in_run : Bool) (s : Text) → visible (collapse_blanks in_run s) ≡ visible s
unfolding collapse_blanks
visible-collapse_blanks in_run [] = refl
visible-collapse_blanks in_run (c ∷ s) =
    let rest = visible-collapse_blanks (is_space c && not (c == 10)) s in
    ground (arith, rest, white_blank)

visible-collapse_lines : (before : ℕ) (s : Text) → visible (collapse_lines before s) ≡ visible s
unfolding collapse_lines
visible-collapse_lines before [] = refl
visible-collapse_lines before (c ∷ s) =
    let rest = visible-collapse_lines (if c == 10 then suc before else 0) s in
    ground (arith, rest, white_at 10 c white_feed)

visible-join_lines : (ls : List Text) → visible (join_lines ls) ≡ visible (concat ls)
unfolding join_lines
visible-join_lines [] = refl
visible-join_lines (l ∷ []) = ap visible (sym (append-nil l))
visible-join_lines (l ∷ m ∷ ls) =
    let feed : visible (10 ∷ join_lines (m ∷ ls)) ≡ visible (join_lines (m ∷ ls)) =
      rw white_feed refl in
    cc (
      visible-append l (10 ∷ join_lines (m ∷ ls)),
      visible-append l (concat (m ∷ ls)),
      feed,
      visible-join_lines (m ∷ ls),
    )

visible-strip_lines : (ls : List Text) → visible (concat (map strip ls)) ≡ visible (concat ls)
visible-strip_lines [] = refl
visible-strip_lines (l ∷ ls) = cc (
  visible-append (strip l) (concat (map strip ls)),
  visible-append l (concat ls),
  visible-strip l,
  visible-strip_lines ls,
)

concat-grow_line : (c : ℕ) (ls : List Text) → concat (grow_line c ls) ≡ c ∷ concat ls
concat-grow_line c [] = refl
concat-grow_line c (l ∷ ls) = refl

visible-split_lines : (s : Text) → visible (concat (split_lines s)) ≡ visible s
unfolding split_lines
visible-split_lines [] = refl
visible-split_lines (c ∷ s) = elim (Bool-cases (c == 10)) [
  | inl feed ↦ rw (feed, white_at 10 c white_feed feed) (visible-split_lines s)
  | inr other ↦ rw other (
      ap visible (concat-grow_line c (split_lines s))
      ∙ ap (λ (r : Text). if not (is_space c) then c ∷ r else r) (visible-split_lines s))
]

-- Cleaning drops the control characters, and changes nothing else but white space.
pub visible-clean :
    (text : Text) → visible (clean text) ≡ select (λ c. not (is_control c)) (visible text)
unfolding clean
visible-clean text =
    let unified = replace_char 13 10 (merge_crlf text) in
    let printable = replace_char 160 32 (drop_controls unified) in
    let blanks = collapse_blanks false printable in
    let stripped = map strip (split_lines blanks) in
    visible-strip (collapse_lines 0 (join_lines stripped))
    ∙ visible-collapse_lines 0 (join_lines stripped)
    ∙ visible-join_lines stripped
    ∙ visible-strip_lines (split_lines blanks)
    ∙ visible-split_lines blanks
    ∙ visible-collapse_blanks false printable
    ∙ visible-replace_char 160 32 (drop_controls unified) white_no_break white_blank
    ∙ visible-drop_controls unified
    ∙ ap (select (λ c. not (is_control c))) (
        visible-replace_char 13 10 (merge_crlf text) white_return white_feed
        ∙ visible-merge_crlf text)
