-- ===== src/Document/Segments.antt =====
-- The segments of backend/app/services/document_text.py: what they hold, and how long they are.
use mathlib.Core.List.{append_assoc, append-nil}
use support_flow.Prelude.{
  ◌≤◌, ◌≡◌, refl, sym, ap, ◌∙◌, none, inl, inr, List, [], ◌∷◌, ◌++◌, length, select, All,
  All-append, Bool-cases, leb, arith,
}
use support_flow.Text.{Text, strip, visible, concat, split_by}
use support_flow.Text.Space.{visible-append, visible-strip, visible-split_by}
use support_flow.Document.{
  non_empty, hard_split, estimated_tokens, max_segment_tokens, fit, settle, sentence_end,
  split_sentences, paragraph_break, segments,
}
use support_flow.Document.Cuts.{cut_pieces-Cut, paragraph_break-Blank, sentence_end-Blank}

-- A segment is not empty, and has at most 700 tokens of four characters.
abbrev pub IsSegment : Text → Type 0
IsSegment s = (1 ≤ length s) × (length s ≤ 2800)

-- The parts of a text are segments, and lose no visible character.
abbrev pub Segmented : Text → List Text → Type 0
Segmented s parts = (visible (concat parts) ≡ visible s) × All IsSegment parts

concat-append : (xs ys : List Text) → concat (xs ++ ys) ≡ concat xs ++ concat ys
concat-append [] ys = refl
concat-append (x ∷ xs) ys =
    ap (λ (r : Text). x ++ r) (concat-append xs ys) ∙ sym (append_assoc x (concat xs) (concat ys))

concat-non_empty : (parts : List Text) → concat (select non_empty parts) ≡ concat parts
concat-non_empty [] = refl
concat-non_empty ([] ∷ parts) = concat-non_empty parts
concat-non_empty ((c ∷ s) ∷ parts) = ap (λ (r : Text). (c ∷ s) ++ r) (concat-non_empty parts)

non_empty-IsSegment :
    (parts : List Text)
    → All (λ (p : Text). length p ≤ 2800) parts
    → All IsSegment (select non_empty parts)
non_empty-IsSegment [] h = tt
non_empty-IsSegment ([] ∷ parts) h = non_empty-IsSegment parts h.1
non_empty-IsSegment ((c ∷ s) ∷ parts) h = ((ground arith, h.0), non_empty-IsSegment parts h.1)

hard_split-Segmented : (s : Text) → Segmented s (hard_split s)
unfolding hard_split
hard_split-Segmented s =
    let (parts, done, (same, short)) =
      cut_pieces-Cut 2800 (length s) s (ground arith) (ground arith) in
    rw done (ap visible (concat-non_empty parts) ∙ same, non_empty-IsSegment parts short)

fit-Segmented :
    (split : Text → List Text) (s : Text)
    → ((t : Text) → Segmented t (split t))
    → Segmented s (fit split s)
unfolding fit
fit-Segmented split [] h = (refl, tt)
fit-Segmented split (c ∷ s) h =
    elim (Bool-cases (leb (estimated_tokens (c ∷ s)) max_segment_tokens)) [
      | inl fits ↦ rw fits (
        ap (λ (r : Text). visible (c ∷ r)) (append-nil s),
        ((ground arith, ground (arith, fits)), tt),
      )
      | inr long ↦ rw long (h (c ∷ s))
    ]

settle-Segmented :
    (split : Text → List Text) (pieces : List Text)
    → ((t : Text) → Segmented t (split t))
    → Segmented (concat pieces) (settle split pieces)
unfolding settle
settle-Segmented split [] h = (refl, tt)
settle-Segmented split (p ∷ pieces) h =
    let (same, all) = fit-Segmented split (strip p) h in
    let (same', all') = settle-Segmented split pieces h in
    (
      ap visible (concat-append (fit split (strip p)) (settle split pieces))
          ∙ cc (
            visible-append (concat (fit split (strip p))) (concat (settle split pieces)),
            visible-append p (concat pieces),
            visible-strip p,
          ),
      All-append IsSegment (fit split (strip p)) (settle split pieces) all all',
    )

split_sentences-Segmented : (s : Text) → Segmented s (split_sentences s)
unfolding split_sentences
split_sentences-Segmented s =
    let (same, all) =
      settle-Segmented hard_split (split_by sentence_end none 0 [] s) hard_split-Segmented in
    (same ∙ visible-split_by sentence_end none 0 [] s sentence_end-Blank tt, all)

-- A document's segments have between one character and 700 estimated tokens each, and run together they are
-- the document: every character that is not white space is in them, once and in its place.
pub segments-Segmented : (text : Text) → Segmented text (segments text)
unfolding segments
segments-Segmented text =
    let (same, all) =
      settle-Segmented split_sentences (split_by paragraph_break none 0 [] text)
        split_sentences-Segmented in
    (same ∙ visible-split_by paragraph_break none 0 [] text paragraph_break-Blank tt, all)
