-- ===== src/FileStorage/Domain/File/Lifecycle.antt =====
-- The life of a File under any sequence of calls of its methods: that it stays valid, and what a
-- deleted file keeps.
use mathlib.Core.Path.{subst}
use neltrik_backend.Prelude.{
  map, All, Option-cases, ◌∙◌, ℕ, ◌≡◌, refl, some, List, [], ◌∷◌, ◌++◌, arith, drop_last, get_last?,
  inl, inr,
}
use neltrik_backend.Prelude.Text.{Text}
use neltrik_backend.Prelude.Result.{Result, ok, err, Result-cases}
use neltrik_backend.FileStorage.Domain.Scan
use neltrik_backend.FileStorage.Domain.Scan.{AntivirusScan}
use neltrik_backend.FileStorage.Domain.Version
use neltrik_backend.FileStorage.Domain.Version.{FileVersion}
use neltrik_backend.FileStorage.Domain.File
use neltrik_backend.FileStorage.Domain.File.{File, add_scan_to_latest_version, is_out_of_order}
use neltrik_backend.FileStorage.Domain.Types.{FileStatus, Error}
use neltrik_backend.FileStorage.Domain.File.Invariant.{
  IsValid, mark_ready-IsValid, mark_infected-IsValid, delete-IsValid, mark_as_orphan-IsValid,
  mark_as_infected_by_rescan-IsValid, rename-IsValid, change_resource-IsValid, add_version-IsValid,
  add_scan_to_latest_version-IsValid,
}

-- A call of a method that changes the entity, with the times that it reads.
pub data Call : Type 0 where
  mark_ready mark_infected mark_as_infected_by_rescan : ℕ → Call
  delete mark_as_orphan : ℕ → ℕ → Call
  add_version : ℕ → FileVersion → Call
  add_scan : ℕ → AntivirusScan → Call
  rename : ℕ → Text → Call
  change_resource : ℕ → Text → Text → Call

unfoldable pub call : Call → File → Result Error File
call (Call.mark_ready t) f = File.mark_ready t f
call (Call.mark_infected t) f = File.mark_infected t f
call (Call.mark_as_infected_by_rescan t) f = File.mark_as_infected_by_rescan t f
call (Call.delete t u) f = File.delete t u f
call (Call.mark_as_orphan t u) f = ok (File.mark_as_orphan t u f)
call (Call.add_version t v) f = File.add_version t v f
call (Call.add_scan t s) f = add_scan_to_latest_version t s f
call (Call.rename t name) f = File.rename t name f
call (Call.change_resource t kind id) f = File.change_resource t kind id f

-- A caller that catches what a call throws goes on with the entity as it was.
abbrev pub settle : File → Result Error File → File
settle f (ok g) = g
settle f (err _) = f

unfoldable pub run : List Call → File → File
run [] f = f
run (c ∷ cs) f = run cs (settle f (call c f))

-- The version or the scan that a call brings is one that its constructor has made.
abbrev pub IsGoodCall : Call → Type 0
IsGoodCall (Call.add_version t v) = Version.IsValid v
IsGoodCall (Call.add_scan t s) = Scan.IsValid s
IsGoodCall _ = Unit

settle-IsValid :
    (f : File) (r : Result Error File)
    → IsValid f
    → ((g : File) → r ≡ ok g → IsValid g)
    → IsValid (settle f r)
settle-IsValid f (ok g) h k = k g refl
settle-IsValid f (err e) h k = h

call-IsValid :
    (c : Call) (f : File) {g : File} → IsGoodCall c → IsValid f → call c f ≡ ok g → IsValid g
unfolding call
call-IsValid (Call.mark_ready t) f a h e = mark_ready-IsValid f h t e
call-IsValid (Call.mark_infected t) f a h e = mark_infected-IsValid f h t e
call-IsValid (Call.mark_as_infected_by_rescan t) f a h e =
    mark_as_infected_by_rescan-IsValid f h t e
call-IsValid (Call.delete t u) f a h e = delete-IsValid f h t u e
call-IsValid (Call.mark_as_orphan t u) f a h e = subst IsValid (cc) (mark_as_orphan-IsValid f h t u)
call-IsValid (Call.add_version t v) f a h e = add_version-IsValid f h t v a e
call-IsValid (Call.add_scan t s) f a h e = add_scan_to_latest_version-IsValid f h t s a e
call-IsValid (Call.rename t name) f a h e = rename-IsValid f h t name e
call-IsValid (Call.change_resource t kind id) f a h e = change_resource-IsValid f h t kind id e

-- Whatever is called on a valid file, with what the constructors of versions and scans have made,
-- it stays valid: its fields given, its versions numbered 1, 2, ... without a gap, its deletion
-- time set exactly when its status is DELETED.
pub run-IsValid : (cs : List Call) (f : File) → All IsGoodCall cs → IsValid f → IsValid (run cs f)
unfolding run
run-IsValid [] f a h = h
run-IsValid (c ∷ cs) f a h =
    run-IsValid cs (settle f (call c f)) a.1
      (settle-IsValid f (call c f) h (λ g e. call-IsValid c f a.0 h e))

-- The keys under which the binaries of a file are stored.
abbrev pub keys : File → List Text
keys f = map (λ v. v.storage_key) f.versions

keys-drop_last :
    (vs : List FileVersion) (l v : FileVersion)
    → get_last? vs ≡ some l
    → v.storage_key ≡ l.storage_key
    → map (λ w. w.storage_key) (drop_last vs ++ v ∷ []) ≡ map (λ w. w.storage_key) vs
keys-drop_last [] l v e same = cc
keys-drop_last (w ∷ []) l v e same = ground arith
keys-drop_last (w ∷ (x ∷ vs)) l v e same = cc (keys-drop_last (x ∷ vs) l v e same)

-- A scan changes no key.
add_scan-keys :
    (t : ℕ) (s : AntivirusScan) (f : File) {g : File}
    → add_scan_to_latest_version t s f ≡ ok g
    → keys g ≡ keys f
unfolding add_scan_to_latest_version Version.with_scan
add_scan-keys t s f e = elim (Option-cases (get_last? f.versions)) [
  | inl absent ↦ ground arith
  | inr (l, last) ↦ ground (arith, keys-drop_last f.versions l (Version.with_scan s l) last refl)
]

add_scan-status :
    (t : ℕ) (s : AntivirusScan) (f : File) {g : File}
    → add_scan_to_latest_version t s f ≡ ok g
    → g.status ≡ f.status
unfolding add_scan_to_latest_version
add_scan-status t s f e = ground arith

add_scan-deleted_at :
    (t : ℕ) (s : AntivirusScan) (f : File) {g : File}
    → add_scan_to_latest_version t s f ≡ ok g
    → g.deleted_at ≡ f.deleted_at
unfolding add_scan_to_latest_version
add_scan-deleted_at t s f e = ground arith

-- What a call leaves alone in a deleted file: the status, the time and the keys of its binaries.
record StaysDeleted (f g : File) : Type 0 where
  status : g.status ≡ FileStatus.deleted
  deleted_at : g.deleted_at ≡ f.deleted_at
  same_keys : keys g ≡ keys f

call-StaysDeleted :
    (c : Call) (f : File) → f.status ≡ FileStatus.deleted → StaysDeleted f (settle f (call c f))
unfolding call File.mark_ready File.mark_infected File.mark_as_infected_by_rescan File.delete
    File.mark_as_orphan File.add_version File.rename File.change_resource
call-StaysDeleted (Call.add_scan t s) f h = elim (Result-cases (add_scan_to_latest_version t s f)) [
  | inl (g, e) ↦ rw e (record {
    status = add_scan-status t s f e ∙ h;
    deleted_at = add_scan-deleted_at t s f e;
    same_keys = add_scan-keys t s f e;
  })
  | inr (x, e) ↦ rw e (record { status = h; deleted_at = refl; same_keys = refl })
]
call-StaysDeleted c f h = ground arith

-- A deleted file stays deleted: no sequence of calls changes its status, its deletion time or the
-- keys of its binaries.
pub run_deleted :
    (cs : List Call) (f : File)
    → f.status ≡ FileStatus.deleted
    → let g = run cs f in
      (g.status ≡ FileStatus.deleted) × (g.deleted_at ≡ f.deleted_at) × (keys g ≡ keys f)
unfolding run
run_deleted [] f h = (h, refl, refl)
run_deleted (c ∷ cs) f h =
    let now = call-StaysDeleted c f h in
    let later = run_deleted cs (settle f (call c f)) now.status in
    (later.0, later.1 ∙ now.deleted_at, later.2 ∙ now.same_keys)
