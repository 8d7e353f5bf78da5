-- ===== src/Document.antt =====
-- backend/app/services/document_text.py: the passages that a document is cut into. `clean` and the page
-- reader stand in the child modules Clean and Page.
pub mod Clean
pub mod Page
pub mod Cuts
pub mod Segments
pub mod Passages
pub mod Sizes
pub mod Extract
use mathlib.Core.List.{reverse}
use support_flow.Prelude.{
  ℕ, zero, suc, ◌+◌, ◌*◌, ◌/◌, ◌-◌, Bool, true, false, not, Option, none, some, List, [], ◌∷◌, ◌++◌,
  ◌&&◌, ◌||◌, ◌==◌, leb, ltb, length, take, select, if◌then◌else◌,
}
use support_flow.Text.{Text, is_space, strip, join_paragraphs, split_by, drop, rfind}

abbrev pub chars_per_token : ℕ
chars_per_token = 4

abbrev pub chunk_target_tokens : ℕ
chunk_target_tokens = 800

abbrev pub chunk_overlap_tokens : ℕ
chunk_overlap_tokens = 100

abbrev pub max_segment_tokens : ℕ
max_segment_tokens = chunk_target_tokens - chunk_overlap_tokens

abbrev pub max_chunks : ℕ
max_chunks = 500

-- `-(-len(text) // 4)`
abbrev pub estimated_tokens : Text → ℕ
estimated_tokens s = (length s + 3) / chars_per_token

-- How many characters of a run of white ones reach to its last newline.
unfoldable pub last_newline : Text → Option ℕ
last_newline [] = none
last_newline (c ∷ s) =
    if is_space c
    then elim (last_newline s) [ some k ↦ some (suc k) | none ↦ if c == 10 then some 1 else none ]
    else none

-- `\n\s*\n`
unfoldable pub paragraph_break : Option ℕ → Text → Option ℕ
unfolding last_newline
paragraph_break before [] = none
paragraph_break before (c ∷ s) = if c == 10 then last_newline s else none

unfoldable pub white_run : Text → ℕ
white_run [] = 0
white_run (c ∷ s) = if is_space c then suc (white_run s) else 0

abbrev pub ends_sentence : Option ℕ → Bool
ends_sentence none = false
ends_sentence (some c) = c == b'.' || c == b'!' || c == b'?'

-- `(?<=[.!?])\s+`
unfoldable pub sentence_end : Option ℕ → Text → Option ℕ
unfolding white_run
sentence_end before [] = none
sentence_end before (c ∷ s) =
    if ends_sentence before && is_space c then some (white_run s) else none

-- Where `_hard_split` cuts: `cut if cut > 0 else limit`.
abbrev pub cut_or : ℕ → Option ℕ → ℕ
cut_or limit none = limit
cut_or limit (some zero) = limit
cut_or limit (some (suc i)) = suc i

unfoldable pub cut_at : ℕ → Text → ℕ
unfolding rfind
cut_at limit remaining = cut_or limit (rfind b' ' (suc limit) remaining)

abbrev pub non_empty : Text → Bool
non_empty [] = false
non_empty (c ∷ s) = true

-- The loop of `_hard_split`; `none` means that the fuel ran out.
unfoldable pub cut_pieces : ℕ → ℕ → Text → Option (List Text)
unfolding cut_at
cut_pieces limit zero remaining =
    if ltb limit (length remaining) then none else some (remaining ∷ [])
cut_pieces limit (suc fuel) remaining =
    let cut = cut_at limit remaining in
    let rest = cut_pieces limit fuel (strip (drop cut remaining)) in
    if ltb limit (length remaining)
    then elim rest [ none ↦ none | some parts ↦ some (strip (take cut remaining) ∷ parts) ]
    else some (remaining ∷ [])

abbrev pub or_empty : Option (List Text) → List Text
or_empty none = []
or_empty (some parts) = parts

-- `_hard_split`, with as much fuel as the sentence has characters.
unfoldable pub hard_split : Text → List Text
unfolding cut_pieces
hard_split sentence =
    select non_empty
      (or_empty (cut_pieces (max_segment_tokens * chars_per_token) (length sentence) sentence))

-- One piece, stripped: nothing, itself if it fits, or cut further.
unfoldable pub fit : (Text → List Text) → Text → List Text
fit split [] = []
fit split (c ∷ s) =
    if leb (estimated_tokens (c ∷ s)) max_segment_tokens then (c ∷ s) ∷ [] else split (c ∷ s)

-- The loop that `_segments` and `_split_sentences` share.
unfoldable pub settle : (Text → List Text) → List Text → List Text
unfolding fit
settle split [] = []
settle split (p ∷ pieces) = fit split (strip p) ++ settle split pieces

-- `_split_sentences`
unfoldable pub split_sentences : Text → List Text
unfolding settle hard_split sentence_end
split_sentences paragraph = settle hard_split (split_by sentence_end none 0 [] paragraph)

-- `_segments`
unfoldable pub segments : Text → List Text
unfolding settle split_sentences paragraph_break
segments text = settle split_sentences (split_by paragraph_break none 0 [] text)

pub record TextChunk : Type 0 where
  pub index : ℕ
  pub content : Text
  pub token_count : ℕ

-- `_joined_tokens`
unfoldable pub joined_tokens : List Text → ℕ
joined_tokens parts = estimated_tokens (join_paragraphs parts)

-- `_as_chunk`
unfoldable pub as_chunk : ℕ → List Text → TextChunk
as_chunk index parts = record {
  index = index;
  content = join_paragraphs parts;
  token_count = estimated_tokens (join_paragraphs parts);
}

-- The loop of `_overlap_tail` over the reversed segments.
unfoldable pub take_overlap : List Text → ℕ → List Text → List Text
take_overlap [] total tail = tail
take_overlap (s ∷ reversed) total tail =
    let more = take_overlap reversed (total + estimated_tokens s) (s ∷ tail) in
    if ltb chunk_overlap_tokens (total + estimated_tokens s) then tail else more

-- `_overlap_tail`
unfoldable pub overlap_tail : List Text → List Text
unfolding take_overlap
overlap_tail parts = take_overlap (reverse parts) 0 []

abbrev pub overflows : List Text → Text → Bool
overflows [] segment = false
overflows (p ∷ buffer) segment =
    ltb chunk_target_tokens (joined_tokens ((p ∷ buffer) ++ segment ∷ []))

-- The loop of `chunk` with what follows it: the chunks to come, the next one numbered `index`.
unfoldable pub assemble : ℕ → List Text → List Text → List TextChunk
unfolding overlap_tail joined_tokens as_chunk
assemble index [] [] = []
assemble index (p ∷ buffer) [] = as_chunk index (p ∷ buffer) ∷ []
assemble index buffer (segment ∷ rest) = elim (overflows buffer segment) [
  | true ↦ as_chunk index buffer ∷ assemble (suc index) (overlap_tail buffer ++ segment ∷ []) rest
  | false ↦ assemble index (buffer ++ segment ∷ []) rest
]

-- Why a document cannot be turned into passages.
pub data DocumentTextError : Type 0 where
  unsupported_type password_protected unreadable_pdf no_text : DocumentTextError
  too_many_passages : ℕ → DocumentTextError

pub data Reading {ℓ} (A : Type ℓ) : Type ℓ where
  read : A → Reading A
  refused : DocumentTextError → Reading A

unfoldable pub chunk : Text → Reading (List TextChunk)
unfolding segments assemble
chunk text =
    let chunks = assemble 0 [] (segments text) in
    if ltb max_chunks (length chunks)
    then refused (DocumentTextError.too_many_passages (length chunks))
    else read chunks
