-- ===== src/Examples/Documents.antt =====
-- Documents that are read, cleaned and cut, by backend/app/services/document_text.py.
use support_flow.Prelude.{
  ℕ, zero, suc, ◌≡◌, ◌≤◌, ◌<◌, refl, some, List, [], ◌∷◌, ◌++◌, map, length, All, arith,
}
use support_flow.Text.{
  Text, codes, visible, join_paragraphs, lstrip, rstrip, strip, split_by, rfind, drop, is_space,
}
use support_flow.Document.{
  Reading, read, TextChunk, joined_tokens, as_chunk, cut_pieces, segments, assemble, chunk,
  chunk_target_tokens,
}
use support_flow.Document.Clean.{is_control, clean}
use support_flow.Document.Page.{Page, Handled, calls, from_html, shown, from_html-shown}
use support_flow.Text.Utf8.{decode_utf8}
use support_flow.Document.Extract.{Readers, Pdf, extract}
use support_flow.Document.Cuts.{Cut, cut_pieces-Cut}
use support_flow.Document.Segments.{Segmented, segments-Segmented}
use support_flow.Document.Passages.{Windows, chunk-Windows}
use support_flow.Document.Sizes.{IsSized, chunk-IsSized, assemble-overfull}

abbrev repeat : ℕ → Text → Text
repeat zero s = []
repeat (suc n) s = s ++ repeat n s

-- A hundred short paragraphs, and one that is as long as a segment may be.
abbrev handbook : Text
handbook = repeat 100 (codes "abcd\n\n") ++ repeat 2800 (codes "x")

abbrev chunks_of : Reading (List TextChunk) → List TextChunk
chunks_of (read chunks) = chunks
chunks_of (Reading.refused e) = []

overfull : map TextChunk.token_count (chunks_of (chunk handbook)) ≡ 150 ∷ 850 ∷ []
unfolding chunk lstrip rstrip strip split_by rfind drop is_space join_paragraphs
overfull = refl

handbook_cut : chunk handbook ≡ read (chunks_of (chunk handbook))
unfolding chunk lstrip rstrip strip split_by rfind drop is_space join_paragraphs
handbook_cut = refl

chunk-IsSized_example :
    (length (chunks_of (chunk handbook)) ≤ 500) × All IsSized (chunks_of (chunk handbook))
chunk-IsSized_example = chunk-IsSized handbook (chunks_of (chunk handbook)) handbook_cut

chunk-Windows_example : Windows 0 [] (segments handbook) (chunks_of (chunk handbook))
chunk-Windows_example = chunk-Windows handbook (chunks_of (chunk handbook)) handbook_cut

segments-Segmented_example : Segmented handbook (segments handbook)
segments-Segmented_example = segments-Segmented handbook

abbrev short : Text
short = codes "abcd"

abbrev long : Text
long = repeat 2800 (codes "x")

abbrev shorts : ℕ → List Text
shorts zero = []
shorts (suc n) = short ∷ shorts n

too_long : chunk_target_tokens < joined_tokens ((short ∷ shorts 99) ++ long ∷ [])
unfolding joined_tokens join_paragraphs
too_long = omega arith

assemble-overfull_example :
    (more : List TextChunk) × ((assemble 0 (short ∷ shorts 99) (long ∷ short ∷ [])
        ≡ as_chunk 0 (short ∷ shorts 99) ∷ as_chunk 1 ((short ∷ shorts 99) ++ long ∷ []) ∷ more)
      × (chunk_target_tokens < (as_chunk 1 ((short ∷ shorts 99) ++ long ∷ [])).token_count))
assemble-overfull_example =
    assemble-overfull 0 short (shorts 99) long (short ∷ []) (omega arith) too_long

-- The limit of three characters stands in for that of 2,800.
cut_pieces-Cut_example :
    (parts : List Text) × (cut_pieces 3 9 (codes "ab cdefgh") ≡ some parts)
    × Cut 3 (codes "ab cdefgh") parts
cut_pieces-Cut_example = cut_pieces-Cut 3 9 (codes "ab cdefgh") (ground arith) (ground arith)

cut_at_blanks :
    cut_pieces 3 9 (codes "ab cdefgh") ≡ some (codes "ab" ∷ codes "cde" ∷ codes "fgh" ∷ [])
unfolding cut_pieces lstrip rstrip strip rfind drop is_space
cut_at_blanks = refl

tidy : clean (codes "  a\tb  c\n\n\n\nd ") ≡ codes "a b c\n\nd"
unfolding clean is_control lstrip rstrip strip is_space
tidy = refl

-- A heading, and a template with a script in it.
abbrev article : Page
article = Page.element "h1" (Page.content (codes "Returns") Page.end) (
    Page.element "template"
      (Page.content (codes "a") (
        Page.element "script" (Page.content (codes "b") Page.end)
          (Page.content (codes "c") Page.end)))
      (Page.content (codes "Ask us") Page.end))

from_html-shown_example : visible (from_html (calls article)) ≡ visible (shown article)
from_html-shown_example = from_html-shown article (tt, ((tt, tt), tt))

-- No PDF can be read, and a page has no tags.
abbrev plain_readers : Readers
plain_readers = record { read_pdf = λ bytes. Pdf.broken; handled = λ s. Handled.characters s ∷ [] }

note_read :
    extract plain_readers (codes "Ask us.  ") (codes "Text/Plain; charset=utf-8")
    ≡ read (codes "Ask us.")
unfolding extract lstrip rstrip strip is_space is_control decode_utf8
note_read = refl

note_cut : chunk (codes "Ask us.") ≡ read (chunks_of (chunk (codes "Ask us.")))
unfolding chunk lstrip rstrip strip split_by rfind drop is_space join_paragraphs
note_cut = refl
