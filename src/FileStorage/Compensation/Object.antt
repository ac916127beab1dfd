-- ===== src/FileStorage/Compensation/Object.antt =====
-- An upload that is compensated by a delete when the transaction after it throws.
use neltrik_backend.Prelude.{◌≡◌, ap, true, false, Option, none, some, arith, inl, inr, Bool-cases}
use neltrik_backend.Prelude.Text.{Text, text_eq_refl}
use neltrik_backend.Prelude.Result.{Result, ok, err, Result-cases}
use neltrik_backend.Prelude.Keeps.{Keeps}
use neltrik_backend.FileStorage.Domain.Types.{Error, service_failure}
use neltrik_backend.FileStorage.ObjectStore.{Buffer}
use neltrik_backend.FileStorage.World.{
  Env, M, WorldOf, tick, upload_object, delete_object, transaction,
}
use neltrik_backend.FileStorage.World.Objects.{Holds, Holds-transaction}
use neltrik_backend.FileStorage.Compensation

-- A transaction that throws leaves the committed tables as they were.
transaction-err :
    (env : Env) {A : Type 0} (m : M env A) {e : Error}
    → ((w : WorldOf env) → (m w).1.committed ≡ w.committed)
    → (w : WorldOf env) → (transaction env m w).0 ≡ err e
    → (transaction env m w).1.committed ≡ w.committed
unfolding transaction
transaction-err env m rolled w thrown =
    let v : WorldOf env = record w { pending = w.committed } in
    elim (Result-cases (m v).0) [
      | inl (a, e) ↦ ground (arith, rolled v)
      | inr (x, e) ↦ ground (arith, rolled v)
    ]

module _ (env : Env) (key : Text) (buffer : Buffer) where
  -- The world after the upload has returned.
  abbrev pub with_object : WorldOf env → WorldOf env
  with_object w = tick (record w { storage = env.objects.put key buffer w.storage })

  upload_object-done :
      (w : WorldOf env)
      → env.fault w.calls ≡ false
      → upload_object env key buffer w ≡ (ok tt, with_object w)
  unfolding upload_object
  upload_object-done w done = rw (done)

  upload_object-lost :
      (w : WorldOf env)
      → env.fault w.calls ≡ true
      → upload_object env key buffer w ≡ (err service_failure, tick w)
  unfolding upload_object
  upload_object-lost w lost = rw (lost)

  module _ {A : Type 0} (m : M env A) where
    abbrev pub compensated : M env A
    compensated =
        Compensation.execute (upload_object env key buffer) (delete_object env key)
          (transaction env m)

    abbrev local_then_delete : WorldOf env → Result Error A × WorldOf env
    local_then_delete v =
        Compensation.rethrow_after (delete_object env key) (transaction env m v).0
          (transaction env m v).1

    abbrev after_upload : Result Error (Unit {0}) × WorldOf env → Result Error A × WorldOf env
    after_upload (r, v) = elim r [ ok _ ↦ local_then_delete v | err e ↦ (err e, v) ]

    compensated-done :
        (w : WorldOf env)
        → env.fault w.calls ≡ false
        → compensated w ≡ local_then_delete (with_object w)
    unfolding Compensation.execute
    compensated-done w done = ap after_upload (upload_object-done w done)

    compensated-lost :
        (w : WorldOf env) → env.fault w.calls ≡ true → compensated w ≡ (err service_failure, tick w)
    unfolding Compensation.execute
    compensated-lost w lost = ap after_upload (upload_object-lost w lost)

    local-ok :
        (v : WorldOf env) {a : A}
        → ((b : Option Buffer) → Keeps (Holds env key b) m)
        → env.objects.get key v.storage ≡ some buffer
        → (local_then_delete v).0 ≡ ok a
        → env.objects.get key (local_then_delete v).1.storage ≡ some buffer
    local-ok v holds stored returned = elim (Result-cases (transaction env m v).0) [
      | inl (x, e) ↦
          ground (arith, (Holds-transaction env key (some buffer) m (holds (some buffer))).run v)
      | inr (x, e) ↦ ground arith
    ]

    local-err :
        (v : WorldOf env) {e : Error}
        → ((u : WorldOf env) → (m u).1.committed ≡ u.committed)
        → env.fault (transaction env m v).1.calls ≡ false
        → (local_then_delete v).0 ≡ err e
        → (env.objects.get key (local_then_delete v).1.storage ≡ none)
          × ((local_then_delete v).1.committed ≡ v.committed)
    unfolding delete_object
    local-err v rolled deletes thrown = elim (Result-cases (transaction env m v).0) [
      | inl (x, e) ↦ ground arith
      | inr (x, e) ↦ ground (
        arith,
        transaction-err env m {e = x} rolled v e,
        env.objects.get-remove key key (transaction env m v).1.storage,
        text_eq_refl key,
      )
    ]

    pub compensated-ok :
        (w : WorldOf env) {a : A}
        → ((b : Option Buffer) → Keeps (Holds env key b) m)
        → (compensated w).0 ≡ ok a
        → env.objects.get key (compensated w).1.storage ≡ some buffer
    compensated-ok w {a} holds returned = elim (Bool-cases (env.fault w.calls)) [
      | inl lost ↦ ground (arith, compensated-lost w lost)
      | inr done ↦ ground (
        arith,
        compensated-done w done,
        local-ok (with_object w) {a = a} holds,
        env.objects.get-put key key buffer w.storage,
        text_eq_refl key,
      )
    ]

    pub compensated-err :
        (w : WorldOf env) {e : Error}
        → ((v : WorldOf env) → (m v).1.committed ≡ v.committed)
        → env.objects.get key w.storage ≡ none
        → env.fault (transaction env m (with_object w)).1.calls ≡ false
        → (compensated w).0 ≡ err e
        → (env.objects.get key (compensated w).1.storage ≡ none)
          × ((compensated w).1.committed ≡ w.committed)
    compensated-err w {e} rolled absent deletes thrown = elim (Bool-cases (env.fault w.calls)) [
      | inl lost ↦ ground (arith, compensated-lost w lost)
      | inr done ↦
          ground (arith, compensated-done w done, local-err (with_object w) {e = e} rolled deletes)
    ]
