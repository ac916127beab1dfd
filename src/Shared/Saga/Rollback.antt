-- ===== src/Shared/Saga/Rollback.antt =====
-- The loop of SagaOrchestrator.execute and its stack of executed steps
-- (src/shared/saga/orchestrator), against a description that recurs on the steps.
use neltrik_backend.Prelude.{◌≡◌, ◌∙◌, refl, arith, none, some, List, [], ◌∷◌}
use neltrik_backend.Prelude.Result.{Result, ok, err}
use neltrik_backend.Prelude.Exec.{Exec}
use neltrik_backend.Shared.Saga
use neltrik_backend.Shared.Saga.{SagaStep, compensate_step, compensate_all, fail, run_steps}

-- Why a run has failed: a step has thrown and all that came before it is compensated so far, or a
-- compensation has thrown.
pub data Failure (E : Type 0) : Type 0 where
  undone broken : E → Failure E

-- The error that is thrown.
abbrev pub thrown : {E : Type 0} → Failure E → E
thrown (undone e) = e
thrown (broken x) = x

module _ {C E : Type 0} where
  -- What one step adds to the outcome of the steps after it: its compensation, if it has one, where
  -- they have thrown and are compensated, and nothing where a compensation has thrown.
  abbrev pub compensated :
      SagaStep C E → Result (Failure E) (Unit {0}) × C → Result (Failure E) (Unit {0}) × C
  compensated s (ok x, c) = (ok x, c)
  compensated s (err (broken x), c) = (err (broken x), c)
  compensated s (err (undone e), c) = elim s.compensate [
    | none ↦ (err (undone e), c)
    | some undo ↦ elim (undo c).0 [
      | ok _ ↦ (err (undone e), (undo c).1)
      | err x ↦ (err (broken x), (undo c).1)
    ]
  ]

  -- A saga as nested handlers: a step, around it the compensation of the step, within it the rest.
  unfoldable pub nested : List (SagaStep C E) → Exec C (Failure E) (Unit {0})
  nested [] c = (ok tt, c)
  nested (s ∷ steps) c =
      let (r, c') = s.execute c in
      let rest = nested steps c' in
      elim r [ ok _ ↦ compensated s rest | err e ↦ (err (undone e), c') ]

  abbrev pub outcome : Result (Failure E) (Unit {0}) × C → Result E (Unit {0}) × C
  outcome (ok x, c) = (ok x, c)
  outcome (err f, c) = (err (thrown f), c)

  -- What is left to do for the steps that were executed before.
  abbrev finish : List (SagaStep C E) → Result (Failure E) (Unit {0}) × C → Result E (Unit {0}) × C
  finish executed (ok x, c) = (ok x, c)
  finish executed (err (undone e), c) = fail executed e c
  finish executed (err (broken x), c) = (err x, c)

  finish-compensated :
      (s : SagaStep C E) (executed : List (SagaStep C E)) (p : Result (Failure E) (Unit {0}) × C)
      → finish (s ∷ executed) p ≡ finish executed (compensated s p)
  unfolding fail compensate_all compensate_step
  finish-compensated s executed (ok x, c) = refl
  finish-compensated s executed (err (broken x), c) = refl
  finish-compensated s executed (err (undone e), c) = ground arith

  run_steps-nested :
      (executed steps : List (SagaStep C E)) (c : C)
      → run_steps executed steps c ≡ finish executed (nested steps c)
  unfolding run_steps nested
  run_steps-nested executed [] c = refl
  run_steps-nested executed (s ∷ steps) c = ground (
    arith,
    run_steps-nested (s ∷ executed) steps (s.execute c).1,
    finish-compensated s executed (nested steps (s.execute c).1),
  )

  finish-outcome : (p : Result (Failure E) (Unit {0}) × C) → finish [] p ≡ outcome p
  unfolding fail compensate_all
  finish-outcome (ok x, c) = refl
  finish-outcome (err (undone e), c) = refl
  finish-outcome (err (broken x), c) = refl

  -- Whatever the steps and the compensations do, a saga is the nesting of its steps: it runs them in
  -- order up to the first that throws, then compensates exactly those that have returned, the last
  -- one first, up to the first compensation that throws, and throws the error of the step or of that
  -- compensation; steps without a compensation stay as they are.
  pub execute-nested :
      (steps : List (SagaStep C E)) (c : C) → Saga.execute steps c ≡ outcome (nested steps c)
  unfolding Saga.execute
  execute-nested steps c = run_steps-nested [] steps c ∙ finish-outcome (nested steps c)
