-- ===== src/Media/Content.antt =====
-- backend/app/domain/media/validation.py and `_read_prefix_and_hash` of
-- backend/app/application/services/media_lifecycle.py. A byte is a number. The text functions of a
-- declared content type are parameters.
pub mod Prefix
use text.Mathlib.Text.{◌==◌ as str_eq}
use hotelops_ai.Prelude.{
  ℕ, zero, suc, ◌*◌, ◌-◌, ◌≡◌, Bool, true, false, not, ◌&&◌, ◌||◌, Option, none, some, List, [],
  ◌∷◌, ◌++◌, String, Name, ◌is◌, ◌==◌, ltb, leb, if◌then◌else◌, length, drop, arith,
}
use hotelops_ai.Prelude.Sets.{member}
use hotelops_ai.Retention.{MediaCategory}

pub data ContentFormat : Type 0 where
  mp4 jpeg png pdf json gzip_json unknown : ContentFormat

abbrev format_code : ContentFormat → ℕ
format_code mp4 = 0
format_code jpeg = 1
format_code png = 2
format_code pdf = 3
format_code json = 4
format_code gzip_json = 5
format_code unknown = 6

pub format_code_injective : (a b : ContentFormat) → format_code a ≡ format_code b → a ≡ b
format_code_injective a b h = ground arith

instance abbrev pub format_name : Name ContentFormat
format_name = record { code = format_code; code_injective = format_code_injective }

-- `_SIZE_LIMITS_BYTES`
abbrev pub size_limit : MediaCategory → ℕ
size_limit MediaCategory.recordings = 50 * 1024 * 1024 * 1024
size_limit MediaCategory.evidence = 512 * 1024 * 1024
size_limit MediaCategory.reports = 512 * 1024 * 1024
size_limit MediaCategory.analytics = 4 * 1024 * 1024 * 1024
size_limit MediaCategory.temporary = 4 * 1024 * 1024 * 1024

abbrev starts_with : List ℕ → List ℕ → Bool
starts_with [] header = true
starts_with (b ∷ magic) [] = false
starts_with (b ∷ magic) (c ∷ header) = b == c && starts_with magic header

-- `lstrip` with the byte order mark and white space.
abbrev lstrip : List ℕ → List ℕ
lstrip [] = []
lstrip (b ∷ bytes) =
    if member (0xEF ∷ 0xBB ∷ 0xBF ∷ 0x20 ∷ 0x09 ∷ 0x0D ∷ 0x0A ∷ []) b
    then lstrip bytes
    else b ∷ bytes

abbrev opens_json : List ℕ → Bool
opens_json [] = false
opens_json (b ∷ bytes) = b == 0x7B || b == 0x5B

unfoldable pub detect_format : List ℕ → ContentFormat
detect_format header =
    if starts_with (0x89 ∷ 0x50 ∷ 0x4E ∷ 0x47 ∷ 0x0D ∷ 0x0A ∷ 0x1A ∷ 0x0A ∷ []) header
    then png
    else if starts_with (0xFF ∷ 0xD8 ∷ 0xFF ∷ []) header
    then jpeg
    else if starts_with (0x25 ∷ 0x50 ∷ 0x44 ∷ 0x46 ∷ 0x2D ∷ []) header
    then pdf
    else if starts_with (0x1F ∷ 0x8B ∷ []) header
    then gzip_json
    else if starts_with (0x66 ∷ 0x74 ∷ 0x79 ∷ 0x70 ∷ []) (drop 4 header)
    then mp4
    else if opens_json (lstrip header)
    then json
    else unknown

-- `lower().strip().split(";", 1)[0].strip()`, the lower case of a text, and `in` on texts.
pub record Texts : Type 0 where
  pub essence : String → String
  pub lower : String → String
  pub within : String → String → Bool

abbrev mapping : String → Option ContentFormat
mapping t =
    if str_eq t "video/mp4" || str_eq t "video/quicktime"
    then some mp4
    else if str_eq t "image/jpeg" || str_eq t "image/jpg"
    then some jpeg
    else if str_eq t "image/png"
    then some png
    else if str_eq t "application/pdf"
    then some pdf
    else if str_eq t "application/json"
    then some json
    else if str_eq t "application/gzip" || str_eq t "application/x-gzip"
    then some gzip_json
    else none

unfoldable pub content_type_format : Texts → String → Option ContentFormat
content_type_format texts content_type = elim (mapping (texts.essence content_type)) [
  | some format ↦ some format
  | none ↦
      if texts.within "json" (texts.essence content_type)
        && texts.within "gzip" (texts.essence content_type)
      then some gzip_json
      else none
]

abbrev pub is_allowed_format : MediaCategory → ContentFormat → Bool
is_allowed_format MediaCategory.recordings f = f is mp4
is_allowed_format MediaCategory.evidence f = f is jpeg || f is png
is_allowed_format MediaCategory.reports f = f is pdf
is_allowed_format MediaCategory.analytics f = f is json || f is gzip_json
is_allowed_format MediaCategory.temporary f = true

abbrev pub agrees : Option ContentFormat → ContentFormat → Bool
agrees none f = true
agrees (some declared) f = declared is f

-- `validate_content(...).valid`
unfoldable pub validate_content : Texts → MediaCategory → String → List ℕ → ℕ → Bool
validate_content texts category content_type header size =
    if length header == 0
    then false
    else if detect_format header is unknown
    then false
    else if not (is_allowed_format category (detect_format header))
    then false
    else if not (agrees (content_type_format texts content_type) (detect_format header))
    then false
    else if ltb (size_limit category) size
    then false
    else true

-- `VALIDATION_PREFIX_BYTES`
abbrev pub prefix_bytes : ℕ
prefix_bytes = 512

abbrev pub take : ℕ → List ℕ → List ℕ
take zero bytes = []
take (suc n) [] = []
take (suc n) (b ∷ bytes) = b ∷ take n bytes

-- The loop over the chunks of the stream; without the hash it stops where the header is full.
unfoldable pub read_prefix : ℕ → Bool → List ℕ → List (List ℕ) → List ℕ
read_prefix limit full header [] = header
read_prefix limit full header (chunk ∷ chunks) =
    let grown = header ++ take (limit - length header) chunk in
    let rest = read_prefix limit full grown chunks in
    let kept = read_prefix limit full header chunks in
    if ltb (length header) limit
    then (if not full && leb limit (length grown) then grown else rest)
    else kept

abbrev pub concat : List (List ℕ) → List ℕ
concat [] = []
concat (chunk ∷ chunks) = chunk ++ concat chunks
