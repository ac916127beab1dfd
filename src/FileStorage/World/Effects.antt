-- ===== src/FileStorage/World/Effects.antt =====
-- What the calls of a service and the transaction do to the committed tables.
use neltrik_backend.Prelude.{◌≡◌, refl, sym, Bool-cases, inl, inr, arith}
use mathlib.Core.Path.{subst}
use neltrik_backend.Prelude.Text.{Text}
use neltrik_backend.Prelude.Result.{ok, Result-cases}
use neltrik_backend.Prelude.Keeps.{Keeps}
use neltrik_backend.FileStorage.ObjectStore.{Buffer}
use neltrik_backend.FileStorage.World.{
  Env, Db, M, WorldOf, ScanJob, new_date, generate_id, upload_object, delete_object,
  download_object, list_objects, scan_buffer, enqueue, transaction,
}

module _ (env : Env) (P : Db → Type 0) where
  -- A predicate of the committed tables, on the world.
  abbrev pub OfCommitted : WorldOf env → Type 0
  OfCommitted w = P w.committed

  pub Keeps-new_date : Keeps OfCommitted (new_date env)
  Keeps-new_date = record { run = λ w h. h }

  pub Keeps-generate_id : Keeps OfCommitted (generate_id env)
  Keeps-generate_id = record { run = λ w h. h }

  same : (d d' : Db) → d' ≡ d → P d → P d'
  same d d' e h = subst P (sym e) h

  pub Keeps-upload_object : (k : Text) (b : Buffer) → Keeps OfCommitted (upload_object env k b)
  unfolding upload_object
  Keeps-upload_object k b = record { run = λ w h. same w.committed _ (ground arith) h }

  pub Keeps-delete_object : (k : Text) → Keeps OfCommitted (delete_object env k)
  unfolding delete_object
  Keeps-delete_object k = record { run = λ w h. same w.committed _ (ground arith) h }

  pub Keeps-download_object : (k : Text) → Keeps OfCommitted (download_object env k)
  unfolding download_object
  Keeps-download_object k = record { run = λ w h. same w.committed _ (ground arith) h }

  pub Keeps-list_objects : (p : Text) → Keeps OfCommitted (list_objects env p)
  unfolding list_objects
  Keeps-list_objects p = record { run = λ w h. same w.committed _ (ground arith) h }

  pub Keeps-scan_buffer : (b : Buffer) → Keeps OfCommitted (scan_buffer env b)
  unfolding scan_buffer
  Keeps-scan_buffer b = record { run = λ w h. same w.committed _ (ground arith) h }

  pub Keeps-enqueue : (j : ScanJob) → Keeps OfCommitted (enqueue env j)
  unfolding enqueue
  Keeps-enqueue j = record { run = λ w h. same w.committed _ (ground arith) h }

-- A transaction leads from `P` to what its body establishes of the pending tables when it returns.
pub transaction-leads :
    (env : Env) (P Q : Db → Type 0) {A : Type 0} (m : M env A)
    → ((d : Db) → P d → Q d)
    → ((w : WorldOf env) → (m w).1.committed ≡ w.committed)
    → ((w : WorldOf env) (a : A)
        → w.pending ≡ w.committed
        → P w.pending
        → (m w).0 ≡ ok a
        → Q (m w).1.pending)
    → (w : WorldOf env) → P w.committed
    → Q (transaction env m w).1.committed
unfolding transaction
transaction-leads env P Q m weaken rolled back w h =
    let v : WorldOf env = record w { pending = w.committed } in
    elim (Result-cases (m v).0) [
      | inl (a, e) ↦ elim (Bool-cases (env.fault (m v).1.calls)) [
        | inl lost ↦ same env Q w.committed _ (ground (arith, rolled v)) (weaken _ h)
        | inr done ↦ rw (e, done) (back v a refl h e)
      ]
      | inr (x, e) ↦ same env Q w.committed _ (ground (arith, rolled v)) (weaken _ h)
    ]

pub Keeps-transaction :
    (env : Env) (P : Db → Type 0) {A : Type 0} (m : M env A)
    → ((w : WorldOf env) → (m w).1.committed ≡ w.committed)
    → ((w : WorldOf env) (a : A)
        → w.pending ≡ w.committed
        → P w.pending
        → (m w).0 ≡ ok a
        → P (m w).1.pending)
    → Keeps (OfCommitted env P) (transaction env m)
Keeps-transaction env P m rolled back = record {
  run = transaction-leads env P P m (λ d h. h) rolled back;
}
