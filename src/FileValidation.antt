-- ===== src/FileValidation.antt =====
-- backend/app/core/file_validation.py: what an uploaded file may be, and the name that it is shown under. The
-- suffix and the base name of a file name, as pathlib says them, are arguments; so is the category Cf.
pub mod Agreement
pub mod Names
use text.Mathlib.Text.{◌==◌ as str_eq}
use support_flow.Prelude.{
  ℕ, String, Bool, true, false, not, Option, none, some, List, [], ◌∷◌, ◌&&◌, ◌||◌, ◌==◌, any_of,
  select, take, if◌then◌else◌,
}
use support_flow.Text.{Text, codes, strip}
use support_flow.Text.Utf8.{Bytes}
use support_flow.Document.Clean.{is_control}
use support_flow.Document.Extract.{text_eq, normalize_content_type}

pub record AllowedType : Type 0 where
  pub media_type : String
  pub signatures : List Bytes
  pub extensions : List String

-- ALLOWED
abbrev pub allowed : List AllowedType
allowed =
    record {
      media_type = "image/png";
      signatures = (0x89 ∷ 0x50 ∷ 0x4E ∷ 0x47 ∷ 0x0D ∷ 0x0A ∷ 0x1A ∷ 0x0A ∷ []) ∷ [];
      extensions = ".png" ∷ [];
    }
    ∷ record {
      media_type = "image/jpeg";
      signatures = (0xFF ∷ 0xD8 ∷ 0xFF ∷ []) ∷ [];
      extensions = ".jpg" ∷ ".jpeg" ∷ [];
    }
    ∷ record {
      media_type = "image/gif";
      signatures = codes "GIF87a" ∷ codes "GIF89a" ∷ [];
      extensions = ".gif" ∷ [];
    }
    ∷ record {
      media_type = "application/pdf";
      signatures = codes "%PDF-" ∷ [];
      extensions = ".pdf" ∷ [];
    }
    ∷ record {
      media_type = "text/plain";
      signatures = [];
      extensions = ".txt" ∷ ".log" ∷ ".csv" ∷ [];
    }
    ∷ record {
      media_type = "text/markdown";
      signatures = [];
      extensions = ".md" ∷ ".markdown" ∷ [];
    }
    ∷ []

abbrev pub first_type : (AllowedType → Bool) → List AllowedType → Option AllowedType
first_type p [] = none
first_type p (t ∷ ts) = if p t then some t else first_type p ts

abbrev pub owns : String → AllowedType → Bool
owns extension t = any_of (str_eq extension) t.extensions

-- EXTENSIONS: the type that owns an extension.
unfoldable pub type_of : String → Option AllowedType
type_of extension = first_type (owns extension) allowed

-- `head.startswith(signature)`
abbrev pub starts_with : Bytes → Bytes → Bool
starts_with head [] = true
starts_with [] (b ∷ signature) = false
starts_with (a ∷ head) (b ∷ signature) = a == b && starts_with head signature

abbrev pub announces : Bytes → AllowedType → Bool
announces head t = any_of (starts_with head) t.signatures

unfoldable pub sniff : Bytes → Option AllowedType
sniff head = first_type (announces head) allowed

abbrev pub declared_type : Option Text → Text
declared_type none = []
declared_type (some declared) = normalize_content_type declared

-- What the bytes say of the declared type.
abbrev pub bytes_agree : AllowedType → Option AllowedType → Bool
bytes_agree t none = elim t.signatures [ [] ↦ true | _ ↦ false ]
bytes_agree t (some detected) = text_eq (codes detected.media_type) (codes t.media_type)

abbrev pub accept : AllowedType → Text → Option AllowedType → Option AllowedType
accept t declared detected =
    if text_eq declared (codes t.media_type) && bytes_agree t detected then some t else none

abbrev pub validate_as : Option AllowedType → Text → Option AllowedType → Option AllowedType
validate_as none declared detected = none
validate_as (some t) declared detected = accept t declared detected

-- The type that the upload is, or none where it raises UnsupportedUpload. A type that owns the extension is in
-- the table, so that the declared type need only be equal to it.
unfoldable pub validate : String → Option Text → Bytes → Option AllowedType
unfolding type_of normalize_content_type sniff
validate extension declared head =
    validate_as (type_of extension) (declared_type declared) (sniff head)

abbrev pub max_filename_length : ℕ
max_filename_length = 255

-- `lstrip(".")`
unfoldable pub strip_dots : Text → Text
strip_dots [] = []
strip_dots (c ∷ s) = if c == b'.' then strip_dots s else c ∷ s

abbrev pub is_kept : (ℕ → Bool) → ℕ → Bool
is_kept is_format c = not (is_control c) && not (is_format c) && not (c == b'"') && not (c == b'\\')

abbrev pub named : Text → Text
named [] = codes "attachment"
named (c ∷ s) = take max_filename_length (c ∷ s)

unfoldable pub sanitize_filename : (ℕ → Bool) → Text → Text
unfolding is_control strip strip_dots
sanitize_filename is_format basename =
    named (strip_dots (strip (select (is_kept is_format) basename)))
