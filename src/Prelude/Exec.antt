-- ===== src/Prelude/Exec.antt =====
-- Asynchronous methods over a world that they change: what was written stays written when the
-- method throws, as in the source.
use mathlib.Core.Bool.{Bool, true, false}
use mathlib.Core.List.{List, [], ◌∷◌}
use mathlib.Core.Option.{Option, none, some}
use neltrik_backend.Prelude.Result.{Result, ok, err}

abbrev pub Exec {ℓ κ μ} : Type ℓ → Type κ → Type μ → Type (ℓ ⊔ κ ⊔ μ)
Exec W E A = W → Result E A × W

module _ {ℓ κ μ} {W : Type ℓ} {E : Type κ} {A : Type μ} where
  abbrev pub pure : A → Exec W E A
  pure a w = (ok a, w)

  abbrev pub throw : E → Exec W E A
  throw e w = (err e, w)

  abbrev pub lift : Result E A → Exec W E A
  lift r w = (r, w)

  abbrev pub gets : (W → A) → Exec W E A
  gets f w = (ok (f w), w)

  -- `if (!o) throw e;`
  abbrev pub or_throw : Option A → E → Exec W E A
  or_throw none e = throw e
  or_throw (some a) _ = pure a

infixl 5 ◌>>=◌
abbrev pub ◌>>=◌ {ℓ κ μ ν} :
    {W : Type ℓ} {E : Type κ} {A : Type μ} {B : Type ν} → Exec W E A → (A → Exec W E B) → Exec W E B
◌>>=◌ m f w = let (r, w') = m w in elim r [ ok a ↦ f a w' | err e ↦ (err e, w') ]

module _ {ℓ κ} {W : Type ℓ} {E : Type κ} where
  infixl 5 ◌>>◌
  abbrev pub ◌>>◌ {μ} : {B : Type μ} → Exec W E (Unit {0}) → Exec W E B → Exec W E B
  m >> k = m >>= λ _. k

  abbrev pub throw_if : Bool → E → Exec W E (Unit {0})
  throw_if true e = throw e
  throw_if false e = pure tt

  abbrev pub modify : (W → W) → Exec W E (Unit {0})
  modify f w = (ok tt, f w)

  -- `for (const x of xs) { await body(x); }`
  unfoldable pub for_each {μ} :
      {A : Type μ} → List A → (A → Exec W E (Unit {0})) → Exec W E (Unit {0})
  for_each [] body = pure tt
  for_each (x ∷ xs) body = let rest = for_each xs body in body x >> rest
