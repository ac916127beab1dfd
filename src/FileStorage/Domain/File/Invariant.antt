-- ===== src/FileStorage/Domain/File/Invariant.antt =====
-- What the methods of the entity File keep: the checks of its constructor, versions that are
-- numbered 1, 2, ..., and a deletion time exactly when the status is DELETED.
use mathlib.Core.Path.{subst}
use neltrik_backend.Prelude.{
  ℕ, ◌≡◌, ◌≢◌, refl, ◌<◌, ◌+◌, true, false, none, some, List, [], ◌∷◌, ◌++◌, arith, length,
  is_empty, get_last?, drop_last, is_some, All, All-append, Option-cases, inl, inr,
}
use neltrik_backend.Prelude.Text.{Text, is_blank}
use neltrik_backend.Prelude.Result.{ok}
use neltrik_backend.FileStorage.Domain.Scan
use neltrik_backend.FileStorage.Domain.Scan.{AntivirusScan}
use neltrik_backend.FileStorage.Domain.Version
use neltrik_backend.FileStorage.Domain.Version.{FileVersion}
use neltrik_backend.FileStorage.Domain.File.{
  File, restore, mark_ready, mark_infected, delete, mark_as_orphan, mark_as_infected_by_rescan,
  add_version, add_scan_to_latest_version, rename, change_resource, NewFile, create,
  get_latest_version,
}
use neltrik_backend.FileStorage.Domain.Types.{is_purpose, is_deleted}

-- The versions are numbered from `n` on without a gap.
abbrev pub IsNumberedFrom : ℕ → List FileVersion → Type 0
IsNumberedFrom n [] = Unit
IsNumberedFrom n (v ∷ vs) = (v.version ≡ n) × IsNumberedFrom (n + 1) vs

pub record IsValid (f : File) : Type 0 where
  pub named : is_blank f.name ≡ false
  pub extension_given : is_blank f.extension ≡ false
  pub mime_type_given : is_blank f.mime_type ≡ false
  pub sized : 0 < f.size
  pub purposed : is_purpose f.purpose ≡ true
  pub versioned : is_empty f.versions ≡ false
  pub versions_valid : All Version.IsValid f.versions
  pub numbered : IsNumberedFrom 1 f.versions
  pub dated : is_some f.deleted_at ≡ is_deleted f.status

module _ (f : File) (h : IsValid f) where
  pub restore-IsValid : restore f ≡ ok f
  unfolding restore
  restore-IsValid = ground arith

  pub mark_ready-IsValid : (t : ℕ) {g : File} → mark_ready t f ≡ ok g → IsValid g
  unfolding mark_ready
  mark_ready-IsValid t e = ground arith

  pub mark_infected-IsValid : (t : ℕ) {g : File} → mark_infected t f ≡ ok g → IsValid g
  unfolding mark_infected
  mark_infected-IsValid t e = ground arith

  pub delete-IsValid : (t u : ℕ) {g : File} → delete t u f ≡ ok g → IsValid g
  unfolding delete
  delete-IsValid t u e = ground arith

  pub mark_as_orphan-IsValid : (t u : ℕ) → IsValid (mark_as_orphan t u f)
  unfolding mark_as_orphan
  mark_as_orphan-IsValid t u = ground arith

  pub mark_as_infected_by_rescan-IsValid :
      (t : ℕ) {g : File} → mark_as_infected_by_rescan t f ≡ ok g → IsValid g
  unfolding mark_as_infected_by_rescan
  mark_as_infected_by_rescan-IsValid t e = ground arith

  pub rename-IsValid : (t : ℕ) (name : Text) {g : File} → rename t name f ≡ ok g → IsValid g
  unfolding rename
  rename-IsValid t name e = ground arith

  pub change_resource-IsValid :
      (t : ℕ) (kind id : Text) {g : File} → change_resource t kind id f ≡ ok g → IsValid g
  unfolding change_resource
  change_resource-IsValid t kind id e = ground arith

-- The versions end with the last one.
pub drop_last-append-get_last? :
    (vs : List FileVersion) (l : FileVersion) → get_last? vs ≡ some l → drop_last vs ++ l ∷ [] ≡ vs
drop_last-append-get_last? [] l e = cc
drop_last-append-get_last? (v ∷ []) l e = ground arith
drop_last-append-get_last? (v ∷ (w ∷ vs)) l e = cc (drop_last-append-get_last? (w ∷ vs) l e)

IsNumberedFrom-append :
    (n : ℕ) (vs : List FileVersion) (v : FileVersion)
    → IsNumberedFrom n vs
    → v.version ≡ n + length vs
    → IsNumberedFrom n (vs ++ v ∷ [])
IsNumberedFrom-append n [] v h e = omega arith
IsNumberedFrom-append n (w ∷ vs) v h e = (h.0, IsNumberedFrom-append (n + 1) vs v h.1 (omega arith))

IsNumberedFrom-get_last? :
    (n : ℕ) (vs : List FileVersion) (l : FileVersion)
    → IsNumberedFrom n vs
    → get_last? vs ≡ some l
    → l.version + 1 ≡ n + length vs
IsNumberedFrom-get_last? n [] l h e = cc
IsNumberedFrom-get_last? n (v ∷ []) l h e = ground arith
IsNumberedFrom-get_last? n (v ∷ (w ∷ vs)) l h e =
    omega (arith, IsNumberedFrom-get_last? (n + 1) (w ∷ vs) l h.1 e)

-- Replacing the last version by one of the same number keeps the numbering.
IsNumberedFrom-drop_last :
    (n : ℕ) (vs : List FileVersion) (l v : FileVersion)
    → IsNumberedFrom n vs
    → get_last? vs ≡ some l
    → v.version ≡ l.version
    → IsNumberedFrom n (drop_last vs ++ v ∷ [])
IsNumberedFrom-drop_last n [] l v h e same = cc
IsNumberedFrom-drop_last n (w ∷ []) l v h e same = ground arith
IsNumberedFrom-drop_last n (w ∷ (x ∷ vs)) l v h e same =
    (h.0, IsNumberedFrom-drop_last (n + 1) (x ∷ vs) l v h.1 e same)

All-drop_last : (P : FileVersion → Type 0) (vs : List FileVersion) → All P vs → All P (drop_last vs)
All-drop_last P [] h = h
All-drop_last P (v ∷ []) h = tt
All-drop_last P (v ∷ (w ∷ vs)) h = (h.0, All-drop_last P (w ∷ vs) h.1)

All-get_last? :
    (P : FileVersion → Type 0) (vs : List FileVersion) (l : FileVersion)
    → All P vs
    → get_last? vs ≡ some l
    → P l
All-get_last? P [] l h e = cc
All-get_last? P (v ∷ []) l h e = subst P (cc) h.0
All-get_last? P (v ∷ (w ∷ vs)) l h e = All-get_last? P (w ∷ vs) l h.1 e

is_empty-append : (vs : List FileVersion) (v : FileVersion) → is_empty (vs ++ v ∷ []) ≡ false
is_empty-append [] v = refl
is_empty-append (w ∷ vs) v = refl

get_last?-ne-none : (vs : List FileVersion) → is_empty vs ≡ false → get_last? vs ≢ none
get_last?-ne-none [] h = cc
get_last?-ne-none (v ∷ []) h = λ e. cc
get_last?-ne-none (v ∷ (w ∷ vs)) h = get_last?-ne-none (w ∷ vs) refl

-- A scan leaves all but the scans of a version as it was.
with_scan-IsValid :
    (s : AntivirusScan) (v : FileVersion)
    → Scan.IsValid s
    → Version.IsValid v
    → Version.IsValid (Version.with_scan s v)
unfolding Version.with_scan
with_scan-IsValid s v hs hv = record {
  numbered = hv.numbered;
  named = hv.named;
  extension_given = hv.extension_given;
  mime_type_given = hv.mime_type_given;
  key_given = hv.key_given;
  sized = hv.sized;
  checksum_given = hv.checksum_given;
  scans_valid = All-append Scan.IsValid v.scans (s ∷ []) hv.scans_valid (hs, tt);
}

with_scan-version :
    (s : AntivirusScan) (v : FileVersion) → (Version.with_scan s v).version ≡ v.version
unfolding Version.with_scan
with_scan-version s v = refl

module _ (f : File) (h : IsValid f) where
  pub add_version-IsValid :
      (t : ℕ) (v : FileVersion) {g : File}
      → Version.IsValid v
      → add_version t v f ≡ ok g
      → IsValid g
  unfolding add_version
  add_version-IsValid t v hv e = elim (Option-cases (get_last? f.versions)) [
    | inl absent ↦ ground arith
    | inr (l, last) ↦ ground (
      arith,
      IsNumberedFrom-append 1 f.versions v h.numbered,
      IsNumberedFrom-get_last? 1 f.versions l h.numbered last,
      All-append Version.IsValid f.versions (v ∷ []) h.versions_valid (hv, tt),
      is_empty-append f.versions v,
    )
  ]

  pub add_scan_to_latest_version-IsValid :
      (t : ℕ) (s : AntivirusScan) {g : File}
      → Scan.IsValid s
      → add_scan_to_latest_version t s f ≡ ok g
      → IsValid g
  unfolding add_scan_to_latest_version
  add_scan_to_latest_version-IsValid t s hs e = elim (Option-cases (get_last? f.versions)) [
    | inl absent ↦ ground arith
    | inr (l, last) ↦ ground (
      arith,
      IsNumberedFrom-drop_last 1 f.versions l (Version.with_scan s l) h.numbered last
          (with_scan-version s l),
      All-append Version.IsValid (drop_last f.versions) (Version.with_scan s l ∷ [])
          (All-drop_last Version.IsValid f.versions h.versions_valid)
          (
            with_scan-IsValid s l hs
                (All-get_last? Version.IsValid f.versions l h.versions_valid last),
            tt,
          ),
      is_empty-append (drop_last f.versions) (Version.with_scan s l),
    )
  ]

  -- The entity has a latest version.
  pub get_latest_version-IsValid :
      (l : FileVersion) × (get_latest_version f ≡ some l) × Version.IsValid l
  unfolding get_latest_version
  get_latest_version-IsValid = elim (Option-cases (get_last? f.versions)) [
    | inl absent ↦ absurd (get_last?-ne-none f.versions h.versioned absent)
    | inr (l, last) ↦ (l, last, All-get_last? Version.IsValid f.versions l h.versions_valid last)
  ]

-- What `create` checks, and what it is given: one valid version numbered 1.
pub create-IsValid :
    (p : NewFile) {f : File}
    → All Version.IsValid p.versions
    → IsNumberedFrom 1 p.versions
    → create p ≡ ok f
    → IsValid f
unfolding create
create-IsValid p hv hn e = ground arith
