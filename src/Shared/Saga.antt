-- ===== src/Shared/Saga.antt =====
-- SagaOrchestrator: src/shared/saga (orchestrator/index.ts, contract/index.ts). The context that the
-- steps share and change is the state `C`, with whatever else they act on.
pub mod Rollback
use neltrik_backend.Prelude.{Option, none, some, List, [], ◌∷◌}
use neltrik_backend.Prelude.Result.{Result, ok, err}
use neltrik_backend.Prelude.Exec.{Exec, pure, ◌>>◌}

-- `SagaStep<TContext>`
pub record SagaStep (C E : Type 0) : Type 0 where
  pub execute : Exec C E (Unit {0})
  pub compensate : Option (Exec C E (Unit {0}))

-- `throw error`, unless a compensation has thrown before.
abbrev pub rethrow : {E : Type 0} → E → Result E (Unit {0}) → Result E (Unit {0})
rethrow e (ok _) = err e
rethrow e (err x) = err x

module _ {C E : Type 0} where
  -- `if (step.compensate) { await step.compensate(context); }`
  unfoldable pub compensate_step : SagaStep C E → Exec C E (Unit {0})
  compensate_step s = elim s.compensate [ none ↦ pure tt | some undo ↦ undo ]

  -- `for (const step of executedSteps.reverse())`: the step that was executed last comes first.
  unfoldable pub compensate_all : List (SagaStep C E) → Exec C E (Unit {0})
  unfolding compensate_step
  compensate_all [] = pure tt
  compensate_all (s ∷ executed) = let rest = compensate_all executed in compensate_step s >> rest

  -- The `catch` block.
  unfoldable pub fail : List (SagaStep C E) → E → Exec C E (Unit {0})
  unfolding compensate_all
  fail executed e c = let (r, c') = compensate_all executed c in (rethrow e r, c')

  -- The `for` loop over the steps; `executed` are the steps done so far, the last one first.
  unfoldable pub run_steps : List (SagaStep C E) → List (SagaStep C E) → Exec C E (Unit {0})
  unfolding fail
  run_steps executed [] c = (ok tt, c)
  run_steps executed (s ∷ steps) c =
      let (r, c') = s.execute c in
      let rest = run_steps (s ∷ executed) steps c' in
      elim r [ ok _ ↦ rest | err e ↦ fail executed e c' ]

  -- `SagaOrchestrator.execute`; the context that it returns is the state that it leaves.
  unfoldable pub execute : List (SagaStep C E) → Exec C E (Unit {0})
  unfolding run_steps
  execute steps = run_steps [] steps
