-- ===== src/Document/Extract.antt =====
-- `extract` of backend/app/services/document_text.py, with `normalize_content_type` of
-- backend/app/core/file_validation.py, and what it says of the passages.
use support_flow.Prelude.{
  ℕ, ◌+◌, ◌≤◌, ◌≡◌, ◌≢◌, subst, refl, sym, ap, ◌∙◌, String, Bool, true, false, not, Option, none,
  some, inl, inr, List, [], ◌∷◌, map, ◌&&◌, ◌||◌, ◌==◌, length, any_of, All, Bool-cases, arith,
  if◌then◌else◌,
}
use support_flow.Text.{
  Text, codes, within, is_space, lstrip, rstrip, strip, visible, concat, join_paragraphs,
}
use support_flow.Text.Space.{visible-rstrip}
use support_flow.Text.Utf8.{Bytes, decode_utf8, encode_utf8, IsScalar, decode_utf8-encode_utf8}
use support_flow.Document.{DocumentTextError, Reading, read, refused, segments, TextChunk, chunk}
use support_flow.Document.Clean.{clean}
use support_flow.Document.Page.{Handled, from_html}
use support_flow.Document.Segments.{segments-Segmented}
use support_flow.Document.Passages.{Windows, chunk-Windows}

-- What pypdf makes of a file.
pub data Pdf : Type 0 where
  encrypted broken : Pdf
  pages : List Text → Pdf

-- pypdf, and the tokenizer of html.parser.
pub record Readers : Type 0 where
  pub read_pdf : Bytes → Pdf
  pub handled : Text → List Handled

unfoldable pub text_eq : Text → Text → Bool
text_eq [] [] = true
text_eq [] (d ∷ t) = false
text_eq (c ∷ s) [] = false
text_eq (c ∷ s) (d ∷ t) = c == d && text_eq s t

-- `str.lower` where it yields ASCII: letters, and the Kelvin sign.
abbrev lower_char : ℕ → ℕ
lower_char c = if within b'A' b'Z' c then c + 32 else if c == 0x212A then b'k' else c

-- `.split(";", 1)[0]`
unfoldable pub before_semicolon : Text → Text
before_semicolon [] = []
before_semicolon (c ∷ s) = if c == b';' then [] else c ∷ before_semicolon s

unfoldable pub normalize_content_type : Text → Text
unfolding before_semicolon
normalize_content_type declared = map lower_char (strip (before_semicolon declared))

abbrev is_type : Text → String → Bool
is_type media_type name = text_eq media_type (codes name)

-- `media_type in READABLE_MEDIA_TYPES`
unfoldable pub is_readable : Text → Bool
unfolding text_eq
is_readable media_type = any_of (is_type media_type) (
    "application/pdf" ∷ "application/xhtml+xml" ∷ "application/xml" ∷ "text/html" ∷ "text/markdown"
    ∷ "text/plain" ∷ "text/xml" ∷ [])

-- Latin-1 gives every byte the character of its number.
abbrev or_latin1 : Option Text → Bytes → Text
or_latin1 (some s) bytes = s
or_latin1 none bytes = bytes

-- `_decode`
unfoldable pub decode : Bytes → Text
unfolding decode_utf8
decode bytes = or_latin1 (decode_utf8 bytes) bytes

-- `_from_pdf`
unfoldable pub from_pdf : Readers → Bytes → Reading Text
from_pdf readers bytes = elim (readers.read_pdf bytes) [
  | Pdf.encrypted ↦ refused DocumentTextError.password_protected
  | Pdf.broken ↦ refused DocumentTextError.unreadable_pdf
  | Pdf.pages ps ↦ read (join_paragraphs ps)
]

unfoldable pub raw_text : Readers → Text → Bytes → Reading Text
unfolding text_eq from_pdf decode from_html
raw_text readers media_type bytes =
    if is_type media_type "application/pdf"
    then from_pdf readers bytes
    else if is_type media_type "text/html" || is_type media_type "application/xhtml+xml"
    then read (from_html (readers.handled (decode bytes)))
    else read (decode bytes)

abbrev nonempty_text : Text → Reading Text
nonempty_text [] = refused DocumentTextError.no_text
nonempty_text (c ∷ s) = read (c ∷ s)

abbrev cleaned : Reading Text → Reading Text
cleaned (read raw) = nonempty_text (clean raw)
cleaned (refused e) = refused e

unfoldable pub extract : Readers → Bytes → Text → Reading Text
unfolding normalize_content_type is_readable raw_text clean
extract readers bytes content_type =
    let media_type = normalize_content_type content_type in
    if not (is_readable media_type)
    then refused DocumentTextError.unsupported_type
    else cleaned (raw_text readers media_type bytes)

-- A stripped text that shows nothing is empty.
rstrip-visible : (s : Text) → visible s ≡ [] → rstrip s ≡ []
unfolding rstrip
rstrip-visible [] h = refl
rstrip-visible (c ∷ s) h = elim (Bool-cases (is_space c)) [
  | inl white ↦ rw (rstrip-visible s (rw white at h)) (rw white refl)
  | inr black ↦ let bad : c ∷ visible s ≡ [] = rw black at h in cc
]

strip-visible : (s : Text) → visible (strip s) ≡ [] → strip s ≡ []
unfolding strip
strip-visible s h = rstrip-visible (lstrip s) (sym (visible-rstrip (lstrip s)) ∙ h)

clean-visible : (raw : Text) → visible (clean raw) ≡ [] → clean raw ≡ []
unfolding clean
clean-visible raw h = strip-visible _ h

nonempty_text-visible :
    (s text : Text) → (visible s ≡ [] → s ≡ []) → nonempty_text s ≡ read text → visible text ≢ []
nonempty_text-visible [] text shows h = absurd (cc h)
nonempty_text-visible (c ∷ s) text shows h =
    let e : c ∷ s ≡ text = cc in
    subst (λ (t : Text). visible t ≢ []) e (λ empty. let bad : c ∷ s ≡ [] = shows empty in cc)

cleaned-visible : (raw : Reading Text) (text : Text) → cleaned raw ≡ read text → visible text ≢ []
cleaned-visible (read raw) text h = nonempty_text-visible (clean raw) text (clean-visible raw) h
cleaned-visible (refused e) text h = absurd (cc h)

-- What `extract` returns shows something.
extract-visible :
    (readers : Readers) (bytes content_type text : Text)
    → extract readers bytes content_type ≡ read text
    → visible text ≢ []
unfolding extract
extract-visible readers bytes content_type text h =
    let media_type = normalize_content_type content_type in
    elim (Bool-cases (not (is_readable media_type))) [
      | inl unknown ↦ let bad : Reading.refused _ ≡ read text = rw unknown at h in absurd (cc bad)
      | inr known ↦ cleaned-visible (raw_text readers media_type bytes) text (rw known at h)
    ]

Windows-nil :
    {index : ℕ} {previous parts : List Text} {chunks : List TextChunk}
    → Windows index previous parts chunks
    → chunks ≡ []
    → parts ≡ []
Windows-nil (Windows.finished index previous) e = refl
Windows-nil
      (Windows.window index previous overlap fresh rest parts chunks ends small new whole later) e =
    absurd (cc e)

-- A document that was read and cut has a passage: none is completed with nothing to search.
pub extract-chunk :
    (readers : Readers) (bytes content_type text : Text) (chunks : List TextChunk)
    → extract readers bytes content_type ≡ read text
    → chunk text ≡ read chunks
    → 1 ≤ length chunks
extract-chunk readers bytes content_type text [] h k =
    let none' : segments text ≡ [] = Windows-nil (chunk-Windows text [] k) refl in
    let shown' : visible text ≡ [] =
      sym (segments-Segmented text).0 ∙ ap (λ (ps : List Text). visible (concat ps)) none' in
    absurd (extract-visible readers bytes content_type text h shown')
extract-chunk readers bytes content_type text (c ∷ chunks) h k = ground arith

-- A file in UTF-8 is decoded to its text, whatever characters that has.
pub decode-encode_utf8 : (s : Text) → All IsScalar s → decode (encode_utf8 s) ≡ s
unfolding decode
decode-encode_utf8 s h =
    ap (λ (r : Option Text). or_latin1 r (encode_utf8 s)) (decode_utf8-encode_utf8 s h)
