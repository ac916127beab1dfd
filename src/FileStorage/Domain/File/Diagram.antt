-- ===== src/FileStorage/Domain/File/Diagram.antt =====
-- The status diagram of a File, call by call.
use neltrik_backend.Prelude.{
  false, none, is_empty, Option-cases, ℕ, ◌≡◌, refl, some, List, [], ◌∷◌, ◌++◌, arith, drop_last,
  get_last?, inl, inr,
}
use neltrik_backend.Prelude.Text.{Text, is_blank}
use neltrik_backend.Prelude.Result.{Result, ok}
use neltrik_backend.FileStorage.Domain.Scan.{AntivirusScan}
use neltrik_backend.FileStorage.Domain.Version
use neltrik_backend.FileStorage.Domain.Version.{FileVersion}
use neltrik_backend.FileStorage.Domain.File
use neltrik_backend.FileStorage.Domain.File.{File, add_scan_to_latest_version, is_out_of_order}
use neltrik_backend.FileStorage.Domain.Types.{FileStatus, Error}
use neltrik_backend.FileStorage.Domain.File.Invariant.{IsValid}
use neltrik_backend.FileStorage.Domain.File.Lifecycle.{Call, call}

-- The status diagram: what a call may make of a status.
pub data Edge : Call → FileStatus → FileStatus → Type 0 where
  accept : (t : ℕ) → Edge (Call.mark_ready t) FileStatus.pending FileStatus.ready
  reject : (t : ℕ) → Edge (Call.mark_infected t) FileStatus.pending FileStatus.infected
  recheck : (t : ℕ) → Edge (Call.mark_as_infected_by_rescan t) FileStatus.ready FileStatus.infected
  remove_ready : (t u : ℕ) → Edge (Call.delete t u) FileStatus.ready FileStatus.deleted
  remove_infected : (t u : ℕ) → Edge (Call.delete t u) FileStatus.infected FileStatus.deleted
  orphan : (t u : ℕ) (s : FileStatus) → Edge (Call.mark_as_orphan t u) s FileStatus.deleted
  replace_ready :
      (t : ℕ) (v : FileVersion) → Edge (Call.add_version t v) FileStatus.ready FileStatus.pending
  replace_infected :
      (t : ℕ) (v : FileVersion) → Edge (Call.add_version t v) FileStatus.infected FileStatus.pending
  scan : (t : ℕ) (a : AntivirusScan) (s : FileStatus) → Edge (Call.add_scan t a) s s
  rename_ready : (t : ℕ) (n : Text) → Edge (Call.rename t n) FileStatus.ready FileStatus.ready
  rename_infected :
      (t : ℕ) (n : Text) → Edge (Call.rename t n) FileStatus.infected FileStatus.infected
  move_ready :
      (t : ℕ) (kind id : Text)
      → Edge (Call.change_resource t kind id) FileStatus.ready FileStatus.ready
  move_infected :
      (t : ℕ) (kind id : Text)
      → Edge (Call.change_resource t kind id) FileStatus.infected FileStatus.infected

ruleset edges = (
  accept, reject, recheck, remove_ready, remove_infected, orphan, replace_ready, replace_infected,
  scan, rename_ready, rename_infected, move_ready, move_infected,
)

-- A call that returns follows the edge that the status diagram has for this very call.
pub call-Edge : (c : Call) (f : File) {g : File} → call c f ≡ ok g → Edge c f.status g.status
unfolding call File.mark_ready File.mark_infected File.mark_as_infected_by_rescan File.delete
    File.mark_as_orphan File.add_version add_scan_to_latest_version File.rename File.change_resource
call-Edge (Call.mark_ready t) f e = grind (arith, edges)
call-Edge c f e = grind (arith, edges)

-- What a call asks of its arguments: the next version, a name or a resource that is not blank.
abbrev pub IsFit : Call → File → Type 0
IsFit (Call.add_version t v) f = is_out_of_order (get_last? f.versions) v ≡ false
IsFit (Call.rename t name) f = is_blank name ≡ false
IsFit (Call.change_resource t kind id) f = (is_blank kind ≡ false) × (is_blank id ≡ false)
IsFit _ f = Unit

-- The outcome of a call that returns with a file in a status.
abbrev pub Returns : Result Error File → FileStatus → Type 0
Returns r s = (g : File) × (r ≡ ok g) × (g.status ≡ s)

abbrev removed : ℕ → ℕ → File → File
removed t u f = record f { status = FileStatus.deleted; deleted_at = some t; updated_at = u }

abbrev with_version : ℕ → FileVersion → File → File
with_version t v f = record f {
  versions = f.versions ++ v ∷ [];
  name = v.name;
  extension = v.extension;
  mime_type = v.mime_type;
  size = v.size;
  status = FileStatus.pending;
  updated_at = t;
}

last_given : (vs : List FileVersion) → is_empty vs ≡ false → get_last? vs ≡ none → ⊥
last_given [] e absent = cc
last_given (v ∷ []) e absent = cc
last_given (v ∷ (w ∷ vs)) e absent = last_given (w ∷ vs) refl absent

-- Every edge of the status diagram is taken: on a valid file in its first status the call returns,
-- when its arguments are fit, and the file is in the second.
pub Edge-Returns :
    {c : Call} {s s' : FileStatus}
    → Edge c s s'
    → (f : File) → f.status ≡ s
    → IsValid f
    → IsFit c f
    → Returns (call c f) s'
unfolding call File.mark_ready File.mark_infected File.mark_as_infected_by_rescan File.delete
    File.mark_as_orphan File.add_version add_scan_to_latest_version File.rename File.change_resource
    File.get_latest_version
Edge-Returns (accept t) f e h a =
    (record f { status = FileStatus.ready; updated_at = t }, ground arith, refl)
Edge-Returns (reject t) f e h a =
    (record f { status = FileStatus.infected; updated_at = t }, ground arith, refl)
Edge-Returns (recheck t) f e h a =
    (record f { status = FileStatus.infected; updated_at = t }, ground arith, refl)
Edge-Returns (remove_ready t u) f e h a = (removed t u f, ground arith, refl)
Edge-Returns (remove_infected t u) f e h a = (removed t u f, ground arith, refl)
Edge-Returns (orphan t u s) f e h a = (File.mark_as_orphan t u f, refl, ground arith)
Edge-Returns (replace_ready t v) f e h a = (with_version t v f, ground arith, refl)
Edge-Returns (replace_infected t v) f e h a = (with_version t v f, ground arith, refl)
Edge-Returns (scan t x s) f e h a = elim (Option-cases (get_last? f.versions)) [
  | inl absent ↦ absurd (last_given f.versions h.versioned absent)
  | inr (l, last) ↦ (
    record f { versions = drop_last f.versions ++ Version.with_scan x l ∷ []; updated_at = t },
    ground arith,
    e,
  )
]
Edge-Returns (rename_ready t n) f e h a = (record f { name = n; updated_at = t }, ground arith, e)
Edge-Returns (rename_infected t n) f e h a =
    (record f { name = n; updated_at = t }, ground arith, e)
Edge-Returns (move_ready t k i) f e h a =
    (record f { resource_type = k; resource_id = i; updated_at = t }, ground arith, e)
Edge-Returns (move_infected t k i) f e h a =
    (record f { resource_type = k; resource_id = i; updated_at = t }, ground arith, e)
