-- ===== src/FileStorage/Compensation.antt =====
-- CompensatingOperationService: src/core/file-storage/application/compensation/index.ts.
pub mod Laws
pub mod Object
use neltrik_backend.Prelude.Result.{Result, ok, err}
use neltrik_backend.Prelude.Exec.{Exec, ◌>>=◌}

module _ {W E A : Type 0} where
  -- The error of the compensation is logged and dropped.
  abbrev pub rethrow_after : Exec W E (Unit {0}) → Result E A → Exec W E A
  rethrow_after compensate (ok a) w = (ok a, w)
  rethrow_after compensate (err e) w = let (_, w') = compensate w in (err e, w')

  unfoldable pub execute : Exec W E (Unit {0}) → Exec W E (Unit {0}) → Exec W E A → Exec W E A
  execute external compensate local =
      external >>= λ _ w. let (r, w') = local w in rethrow_after compensate r w'
