-- ===== src/FileStorage/Compensation/Laws.antt =====
-- What a compensated operation keeps and when it compensates.
use neltrik_backend.Prelude.Result.{Result, ok, err}
use neltrik_backend.Prelude.Exec.{Exec, ◌>>=◌, lift}
use neltrik_backend.Prelude.Keeps.{Keeps}
use neltrik_backend.FileStorage.Compensation.{execute, rethrow_after}

module _ {W E A : Type 0} (external compensate : Exec W E (Unit {0})) (local : Exec W E A) where
  module _ {Q : W → Type 0} where
    rethrow_after-leads :
        (r : Result E A) (w : W) → Keeps Q compensate → Q w → Q (rethrow_after compensate r w).1
    rethrow_after-leads (ok a) w k h = h
    rethrow_after-leads (err e) w k h = k.run w h

  module _ {P Q : W → Type 0} where
    after_external :
        (r : Result E (Unit {0})) (w : W)
        → ((v : W) → P v → Q v)
        → ((v : W) → P v → Q (local v).1)
        → Keeps Q compensate
        → P w
        → Q ((lift r >>= λ _ v. rethrow_after compensate (local v).0 (local v).1) w).1
    after_external (ok _) w weaken kl kc h = rethrow_after-leads (local w).0 (local w).1 kc (kl w h)
    after_external (err e) w weaken kl kc h = weaken w h

    -- From `P`, which the external operation keeps, to `Q`, which the compensation keeps.
    pub execute-leads :
        ((v : W) → P v → Q v)
        → Keeps P external
        → Keeps Q compensate
        → ((v : W) → P v → Q (local v).1)
        → (w : W) → P w
        → Q (execute external compensate local w).1
    unfolding execute
    execute-leads weaken kx kc kl w h =
        after_external (external w).0 (external w).1 weaken kl kc (kx.run w h)

  pub execute-Keeps :
      {P : W → Type 0}
      → Keeps P external
      → Keeps P compensate
      → Keeps P local
      → Keeps P (execute external compensate local)
  execute-Keeps kx kc kl = record { run = execute-leads (λ v h. h) kx kc kl.run }
