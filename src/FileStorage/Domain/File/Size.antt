-- ===== src/FileStorage/Domain/File/Size.antt =====
-- The bytes of a file: the sum over its versions, and what each method does to it.
use neltrik_backend.Prelude.{
  ℕ, ◌≡◌, ◌+◌, refl, some, List, [], ◌∷◌, ◌++◌, arith, drop_last, get_last?, Option-cases, inl, inr,
}
use neltrik_backend.Prelude.Result.{ok}
use neltrik_backend.FileStorage.Domain.Scan.{AntivirusScan}
use neltrik_backend.FileStorage.Domain.Version
use neltrik_backend.FileStorage.Domain.Version.{FileVersion}
use neltrik_backend.FileStorage.Domain.File.{
  File, add_version, add_scan_to_latest_version, sum_sizes, get_total_size,
}

-- The sum as a plain recursion.
abbrev pub bytes : List FileVersion → ℕ
bytes [] = 0
bytes (v ∷ vs) = v.size + bytes vs

sum_sizes-eq-bytes : (n : ℕ) (vs : List FileVersion) → sum_sizes n vs ≡ n + bytes vs
unfolding sum_sizes
sum_sizes-eq-bytes n [] = omega arith
sum_sizes-eq-bytes n (v ∷ vs) = omega (arith, sum_sizes-eq-bytes (n + v.size) vs)

pub get_total_size-eq-bytes : (f : File) → get_total_size f ≡ bytes f.versions
unfolding get_total_size
get_total_size-eq-bytes f = omega (arith, sum_sizes-eq-bytes 0 f.versions)

bytes-append : (vs : List FileVersion) (v : FileVersion) → bytes (vs ++ v ∷ []) ≡ bytes vs + v.size
bytes-append [] v = omega arith
bytes-append (w ∷ vs) v = omega (arith, bytes-append vs v)

bytes-drop_last :
    (vs : List FileVersion) (l v : FileVersion)
    → get_last? vs ≡ some l
    → v.size ≡ l.size
    → bytes (drop_last vs ++ v ∷ []) ≡ bytes vs
bytes-drop_last [] l v e same = cc
bytes-drop_last (w ∷ []) l v e same = ground arith
bytes-drop_last (w ∷ (x ∷ vs)) l v e same = omega (arith, bytes-drop_last (x ∷ vs) l v e same)

-- A call that adds a version, if it returns, adds the size of the version to the bytes of the file.
pub add_version-get_total_size :
    (t : ℕ) (v : FileVersion) (f : File) {g : File}
    → add_version t v f ≡ ok g
    → get_total_size g ≡ get_total_size f + v.size
unfolding add_version
add_version-get_total_size t v f {g} e =
    ground (arith, get_total_size-eq-bytes f, get_total_size-eq-bytes g, bytes-append f.versions v)

-- A scan adds no bytes.
pub add_scan_to_latest_version-get_total_size :
    (t : ℕ) (s : AntivirusScan) (f : File) {g : File}
    → add_scan_to_latest_version t s f ≡ ok g
    → get_total_size g ≡ get_total_size f
unfolding add_scan_to_latest_version Version.with_scan
add_scan_to_latest_version-get_total_size t s f {g} e = elim (Option-cases (get_last? f.versions)) [
  | inl absent ↦ ground arith
  | inr (l, last) ↦ ground (
    arith,
    get_total_size-eq-bytes f,
    get_total_size-eq-bytes g,
    bytes-drop_last f.versions l (Version.with_scan s l) last refl,
  )
]
