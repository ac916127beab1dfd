-- ===== src/FileStorage/Mapper.antt =====
-- FileMapper.toDomain and FileQuotaMapper.toDomain: src/core/file-storage/infrastructure/mappers.
-- The tables of the model keep the entity in place of the row that `toPersistence` wrote for it, and
-- what is here reads such a row. Reading goes through the constructors, so a row that does not pass
-- their checks throws. Mapper/Rows has the rows themselves.
pub mod Rows
use neltrik_backend.Prelude.{◌≡◌, refl, inl, inr, List, [], ◌∷◌, arith, All}
use neltrik_backend.Prelude.Result.{Result, ok, ◌>>=◌, Result-cases}
use neltrik_backend.FileStorage.Domain.Types.{Error, at}
use neltrik_backend.FileStorage.Domain.Scan
use neltrik_backend.FileStorage.Domain.Scan.{AntivirusScan}
use neltrik_backend.FileStorage.Domain.Version
use neltrik_backend.FileStorage.Domain.Version.{FileVersion}
use neltrik_backend.FileStorage.Domain.File
use neltrik_backend.FileStorage.Domain.File.{File}
use neltrik_backend.FileStorage.Domain.File.Invariant
use neltrik_backend.FileStorage.Domain.Quota
use neltrik_backend.FileStorage.Domain.Quota.{FileQuota}

-- `xs.map(f)` where `f` may throw
unfoldable pub map_result {ℓ} :
    {A B : Type ℓ} → (A → Result Error B) → List A → Result Error (List B)
map_result f [] = ok []
map_result f (x ∷ xs) = let rest = map_result f xs in f x >>= λ y. rest >>= λ ys. ok (y ∷ ys)

unfoldable pub scan_to_domain : AntivirusScan → Result Error AntivirusScan
scan_to_domain s = Scan.create s.status s.engine s.result (at s.scanned_at)

unfoldable pub version_to_domain : FileVersion → Result Error FileVersion
unfolding map_result scan_to_domain
version_to_domain v = do
  scans ← map_result scan_to_domain v.scans
  Version.create (record {
    version = v.version;
    name = v.name;
    extension = v.extension;
    mime_type = v.mime_type;
    storage_key = v.storage_key;
    size = v.size;
    checksum = v.checksum;
    scans = scans;
    created_at = at v.created_at;
  })

unfoldable pub file_to_domain : File → Result Error File
unfolding map_result version_to_domain
file_to_domain f = do
  versions ← map_result version_to_domain f.versions
  File.restore (record f { versions = versions })

unfoldable pub quota_to_domain : FileQuota → Result Error FileQuota
quota_to_domain q = Quota.restore q

map_result-All {ℓ} :
    {A : Type ℓ} (P : A → Type 0) (f : A → Result Error A) (xs : List A)
    → ((x : A) → P x → f x ≡ ok x)
    → All P xs
    → map_result f xs ≡ ok xs
unfolding map_result
map_result-All P f [] back h = refl
map_result-All P f (x ∷ xs) back h = rw (back x h.0) (rw (map_result-All P f xs back h.1))

scan_to_domain-IsValid : (s : AntivirusScan) → Scan.IsValid s → scan_to_domain s ≡ ok s
unfolding scan_to_domain Scan.create
scan_to_domain-IsValid s h = ground arith

version_to_domain-IsValid : (v : FileVersion) → Version.IsValid v → version_to_domain v ≡ ok v
unfolding version_to_domain Version.create
version_to_domain-IsValid v h =
    rw (map_result-All Scan.IsValid scan_to_domain v.scans scan_to_domain-IsValid h.scans_valid)
      (ground arith)

-- What the constructors make of a valid file is the file itself.
pub file_to_domain-IsValid : (f : File) → Invariant.IsValid f → file_to_domain f ≡ ok f
unfolding file_to_domain
file_to_domain-IsValid f h =
    rw
      (map_result-All Version.IsValid version_to_domain f.versions version_to_domain-IsValid
        h.versions_valid)
      (Invariant.restore-IsValid f h)

-- The result of an element-wise read that gives back what it read.
pub map_result-id {ℓ} :
    {A : Type ℓ} (f : A → Result Error A) (xs : List A) {ys : List A}
    → ((x y : A) → f x ≡ ok y → y ≡ x)
    → map_result f xs ≡ ok ys
    → ys ≡ xs
unfolding map_result
map_result-id f [] same e = cc
map_result-id f (x ∷ xs) same e = elim (Result-cases (f x)) [
  | inl (y, ex) ↦ elim (Result-cases (map_result f xs)) [
    | inl (zs, ez) ↦ cc (same x y ex, map_result-id f xs same ez)
    | inr (z, ez) ↦ cc
  ]
  | inr (z, ex) ↦ cc
]

scan_to_domain-id : (s u : AntivirusScan) → scan_to_domain s ≡ ok u → u ≡ s
unfolding scan_to_domain Scan.create
scan_to_domain-id s u e = ground arith

version_to_domain-id : (v u : FileVersion) → version_to_domain v ≡ ok u → u ≡ v
unfolding version_to_domain Version.create
version_to_domain-id v u e = elim (Result-cases (map_result scan_to_domain v.scans)) [
  | inl (ss, es) ↦ ground (arith, map_result-id scan_to_domain v.scans scan_to_domain-id es)
  | inr (x, es) ↦ ground arith
]

-- A file that is read back at all is read back as it was written.
pub file_to_domain-id : (f g : File) → file_to_domain f ≡ ok g → g ≡ f
unfolding file_to_domain File.restore
file_to_domain-id f g e = elim (Result-cases (map_result version_to_domain f.versions)) [
  | inl (vs, ev) ↦
      ground (arith, map_result-id version_to_domain f.versions version_to_domain-id ev)
  | inr (x, ev) ↦ ground arith
]

pub quota_to_domain-id : (q r : FileQuota) → quota_to_domain q ≡ ok r → r ≡ q
unfolding quota_to_domain Quota.restore
quota_to_domain-id q r e = ground arith
