-- ===== src/Shared/Samples.antt =====
-- A saga on a number, and the theorem about sagas at it.
use neltrik_backend.Prelude.{ℕ, ◌≡◌, ◌+◌, ◌-◌, none, some, [], ◌∷◌, if◌then◌else◌, ltb}
use neltrik_backend.Prelude.Result.{ok, err}
use neltrik_backend.Shared.Saga
use neltrik_backend.Shared.Saga.{SagaStep}
use neltrik_backend.Shared.Saga.Rollback.{nested, execute-nested}

-- Its compensation throws where the number is too small.
abbrev add : ℕ → SagaStep ℕ ℕ
add n = record {
  execute = λ c. (ok tt, c + n);
  compensate = some (λ c. if ltb c 12 then (err 8, c) else (ok tt, c - n));
}

abbrev refuse : ℕ → SagaStep ℕ ℕ
refuse e = record { execute = λ c. (err e, c); compensate = none }

-- The compensation of the second step is made, and that of the first throws.
execute-nested_example : Saga.execute (add 1 ∷ add 3 ∷ refuse 7 ∷ []) 10 ≡ (err 8, 11)
unfolding nested
execute-nested_example = execute-nested (add 1 ∷ add 3 ∷ refuse 7 ∷ []) 10
