-- ===== src/FileStorage/Validation.antt =====
-- FileValidationService and FILE_PURPOSE_DEFINITIONS:
-- src/core/file-storage/application/validation/index.ts and domain/types/file-purpose-definition.
use neltrik_backend.Prelude.{
  ℕ, ◌+◌, ◌*◌, Bool, true, not, ◌&&◌, ◌||◌, Option, none, some, List, [], ◌∷◌, ◌==◌, ltb, leb,
  if◌then◌else◌, map,
}
use neltrik_backend.Prelude.Text.{Text, text, text_eq, includes}
use neltrik_backend.Prelude.Result.{Result, ◌>>◌, throw_if}
use neltrik_backend.FileStorage.Domain.Types.{
  FilePurpose, cv, avatar, document, other_purpose, is_purpose, Error, invalid_file_purpose,
  invalid_mime_type, invalid_file_extension, file_mime_type_mismatch, invalid_file_size,
}
use neltrik_backend.FileStorage.ObjectStore.{Buffer}

abbrev pdf : Text
pdf = text "application/pdf"

abbrev docx : Text
docx = text "application/vnd.openxmlformats-officedocument.wordprocessingml.document"

abbrev jpeg : Text
jpeg = text "image/jpeg"

abbrev png : Text
png = text "image/png"

abbrev webp : Text
webp = text "image/webp"

-- `FILE_PURPOSE_DEFINITIONS[purpose].allowedMimeTypes`; the purpose has been checked before.
unfoldable pub allowed_mime_types : FilePurpose → List Text
allowed_mime_types cv = pdf ∷ docx ∷ []
allowed_mime_types avatar = jpeg ∷ png ∷ webp ∷ []
allowed_mime_types document = pdf ∷ docx ∷ jpeg ∷ png ∷ []
allowed_mime_types (other_purpose _) = []

-- `FILE_PURPOSE_DEFINITIONS[purpose].maxSizeBytes`
unfoldable pub max_size_bytes : FilePurpose → ℕ
max_size_bytes cv = 10 * 1024 * 1024
max_size_bytes avatar = 2 * 1024 * 1024
max_size_bytes document = 25 * 1024 * 1024
max_size_bytes (other_purpose _) = 0

unfoldable pub mime_type_to_extensions : Text → List Text
mime_type_to_extensions m =
    if text_eq m pdf
    then text "pdf" ∷ []
    else if text_eq m docx
    then text "docx" ∷ []
    else if text_eq m jpeg
    then text "jpg" ∷ text "jpeg" ∷ []
    else if text_eq m png
    then text "png" ∷ []
    else if text_eq m webp
    then text "webp" ∷ []
    else []

-- `toLowerCase` on the ASCII letters: no other letter has a lower case within the known extensions.
abbrev lower : ℕ → ℕ
lower c = if leb b'A' c && leb c b'Z' then c + 32 else c

-- `.replace(/^\./, "")`
abbrev drop_dot : Text → Text
drop_dot [] = []
drop_dot (c ∷ s) = if c == b'.' then s else c ∷ s

unfoldable pub is_extension_coherent : Text → Text → Bool
unfolding mime_type_to_extensions
is_extension_coherent extension mime_type =
    includes (mime_type_to_extensions mime_type) (drop_dot (map lower extension))

-- `detected !== mimeType`, where the detector may have found no type
abbrev is_other_type : Option Text → Text → Bool
is_other_type none m = true
is_other_type (some d) m = not (text_eq d m)

-- `detect` is the MagicBytesDetector.
unfoldable pub validate :
    (Buffer → Option Text) → FilePurpose → Text → Text → ℕ → Buffer → Result Error (Unit {0})
validate detect purpose mime_type extension size buffer = do
  throw_if (not (is_purpose purpose)) invalid_file_purpose
  throw_if (not (includes (allowed_mime_types purpose) mime_type)) invalid_mime_type
  throw_if (not (is_extension_coherent extension mime_type)) invalid_file_extension
  throw_if (is_other_type (detect buffer) mime_type) file_mime_type_mismatch
  throw_if (size == 0 || ltb (max_size_bytes purpose) size) invalid_file_size
