-- ===== src/FileStorage/Domain/Version.antt =====
-- The value object FileVersion:
-- src/core/file-storage/domain/value-objects/file/version/index.ts.
-- A version number and a size are integers that are not negative, so the tests `< 1` and `<= 0`
-- are tests against zero.
use neltrik_backend.Prelude.{
  ℕ, ◌≡◌, ◌<◌, Bool, true, false, ◌&&◌, Option, none, some, List, [], ◌∷◌, ◌++◌, ◌==◌, length,
  get_last?, All,
}
use neltrik_backend.Prelude.Text.{Text, text_eq, is_blank}
use neltrik_backend.Prelude.Result.{Result, ok, ◌>>=◌, ◌>>◌, throw_if}
use neltrik_backend.FileStorage.Domain.Scan
use neltrik_backend.FileStorage.Domain.Scan.{AntivirusScan, ensure_date}
use neltrik_backend.FileStorage.Domain.Types.{Date, Error, invalid_file_version}

pub record FileVersion : Type 0 where
  pub version : ℕ
  pub name : Text
  pub extension : Text
  pub mime_type : Text
  pub storage_key : Text
  pub size : ℕ
  pub checksum : Text
  pub scans : List AntivirusScan
  pub created_at : ℕ

-- The parameter of `create`.
pub record Params : Type 0 where
  pub version : ℕ
  pub name : Text
  pub extension : Text
  pub mime_type : Text
  pub storage_key : Text
  pub size : ℕ
  pub checksum : Text
  pub scans : List AntivirusScan
  pub created_at : Date

unfoldable pub create : Params → Result Error FileVersion
create p = do
  throw_if (p.version == 0) invalid_file_version
  throw_if (is_blank p.name) invalid_file_version
  throw_if (is_blank p.extension) invalid_file_version
  throw_if (is_blank p.mime_type) invalid_file_version
  throw_if (is_blank p.storage_key) invalid_file_version
  throw_if (p.size == 0) invalid_file_version
  throw_if (is_blank p.checksum) invalid_file_version
  ms ← ensure_date p.created_at invalid_file_version
  ok (record {
    version = p.version;
    name = p.name;
    extension = p.extension;
    mime_type = p.mime_type;
    storage_key = p.storage_key;
    size = p.size;
    checksum = p.checksum;
    scans = p.scans;
    created_at = ms;
  })

-- Whatever version the parameter names, the first one is made.
unfoldable pub create_initial : Params → Result Error FileVersion
unfolding create
create_initial p = create (record p { version = 1 })

unfoldable pub get_latest_scan : FileVersion → Option AntivirusScan
get_latest_scan v = get_last? v.scans

unfoldable pub is_clean : FileVersion → Bool
unfolding get_latest_scan
is_clean v = elim (get_latest_scan v) [ none ↦ false | some s ↦ Scan.is_clean s ]

unfoldable pub with_scan : AntivirusScan → FileVersion → FileVersion
with_scan s v = record v { scans = v.scans ++ s ∷ [] }

-- `this.scans.every(...)` against the scans of the other version, index by index
abbrev scans_eq : List AntivirusScan → List AntivirusScan → Bool
scans_eq [] other = true
scans_eq (_ ∷ _) [] = false
scans_eq (s ∷ ss) (o ∷ os) = Scan.equals s o && scans_eq ss os

unfoldable pub equals : FileVersion → FileVersion → Bool
equals a b =
    a.version == b.version
    && text_eq a.name b.name
    && text_eq a.extension b.extension
    && text_eq a.mime_type b.mime_type
    && text_eq a.storage_key b.storage_key
    && a.size == b.size
    && text_eq a.checksum b.checksum
    && a.created_at == b.created_at
    && length a.scans == length b.scans
    && scans_eq a.scans b.scans

-- What the constructors have checked of a version, its scans included.
pub record IsValid (v : FileVersion) : Type 0 where
  pub numbered : 0 < v.version
  pub named : is_blank v.name ≡ false
  pub extension_given : is_blank v.extension ≡ false
  pub mime_type_given : is_blank v.mime_type ≡ false
  pub key_given : is_blank v.storage_key ≡ false
  pub sized : 0 < v.size
  pub checksum_given : is_blank v.checksum ≡ false
  pub scans_valid : All Scan.IsValid v.scans
