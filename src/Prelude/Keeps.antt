-- ===== src/Prelude/Keeps.antt =====
-- Predicates on the world that a method keeps, whether it returns or throws: a rule for each way to
-- build a method.
use mathlib.Core.Path.{◌≡◌, refl}
use mathlib.Core.Bool.{Bool, true, false}
use mathlib.Core.List.{List, [], ◌∷◌}
use mathlib.Core.Option.{Option, none, some}
use neltrik_backend.Prelude.Tests.{if◌then◌else◌}
use neltrik_backend.Prelude.Lists.{All}
use neltrik_backend.Prelude.Result.{Result, ok, err}
use neltrik_backend.Prelude.Exec.{Exec, pure, lift, or_throw, throw_if, for_each, ◌>>=◌}

pub record Keeps {ℓ} {W E A : Type ℓ} (P : W → Type ℓ) (m : Exec W E A) : Type ℓ where
  pub run : (w : W) → P w → P (m w).1

module _ {ℓ} {W E A : Type ℓ} {P : W → Type ℓ} where
  pub Keeps-pure : (a : A) → Keeps P (pure {E = E} a)
  Keeps-pure a = record { run = λ w h. h }

  pub Keeps-lift : (r : Result E A) → Keeps P (lift r)
  Keeps-lift r = record { run = λ w h. h }

  pub Keeps-or_throw : (o : Option A) (e : E) → Keeps P (or_throw o e)
  Keeps-or_throw none e = record { run = λ w h. h }
  Keeps-or_throw (some a) e = record { run = λ w h. h }

  pub Keeps-if :
      (b : Bool) (m n : Exec W E A) → Keeps P m → Keeps P n → Keeps P (if b then m else n)
  Keeps-if true m n km kn = km
  Keeps-if false m n km kn = kn

module _ {W E : Type 0} {P : W → Type 0} where
  pub Keeps-throw_if : (b : Bool) (e : E) → Keeps P (throw_if b e)
  Keeps-throw_if true e = record { run = λ w h. h }
  Keeps-throw_if false e = record { run = λ w h. h }

module _ {ℓ} {W E A B : Type ℓ} {P : W → Type ℓ} where
  resume :
      (r : Result E A) (w : W) (f : A → Exec W E B)
      → ((a : A) → Keeps P (f a))
      → P w
      → P ((lift r >>= f) w).1
  resume (ok a) w f kf h = (kf a).run w h
  resume (err e) w f kf h = h

  pub Keeps-bind :
      (m : Exec W E A) (f : A → Exec W E B)
      → Keeps P m
      → ((a : A) → Keeps P (f a))
      → Keeps P (m >>= f)
  Keeps-bind m f km kf = record { run = λ w h. resume (m w).0 (m w).1 f kf (km.run w h) }

  resume_at :
      (r : Result E A) (w : W) (f : A → Exec W E B)
      → ((a : A) → r ≡ ok a → Keeps P (f a))
      → P w
      → P ((lift r >>= f) w).1
  resume_at (ok a) w f kf h = (kf a refl).run w h
  resume_at (err x) w f kf h = h

  -- The rest of the method keeps `P` at the value that its first part returns, if it returns one.
  pub Keeps-bind_at :
      (m : Exec W E A) (f : A → Exec W E B) (w : W)
      → Keeps P m
      → ((a : A) → (m w).0 ≡ ok a → Keeps P (f a))
      → P w
      → P ((m >>= f) w).1
  Keeps-bind_at m f w km kf h = resume_at (m w).0 (m w).1 f kf (km.run w h)

module _ {W E A : Type 0} {P : W → Type 0} where
  pub Keeps-for_each :
      (xs : List A) (body : A → Exec W E (Unit {0}))
      → ((x : A) → Keeps P (body x))
      → Keeps P (for_each xs body)
  unfolding for_each
  Keeps-for_each [] body k = Keeps-pure tt
  Keeps-for_each (x ∷ xs) body k = Keeps-bind (body x) _ (k x) (λ _. Keeps-for_each xs body k)

  -- The body keeps `P` at the elements that the list holds.
  pub Keeps-for_each-All :
      (xs : List A) (body : A → Exec W E (Unit {0}))
      → All (λ x. Keeps P (body x)) xs
      → Keeps P (for_each xs body)
  unfolding for_each
  Keeps-for_each-All [] body k = Keeps-pure tt
  Keeps-for_each-All (x ∷ xs) body k =
      Keeps-bind (body x) _ k.0 (λ _. Keeps-for_each-All xs body k.1)

pub ruleset keeps_rules =
    (Keeps-pure, Keeps-lift, Keeps-or_throw, Keeps-if, Keeps-throw_if, Keeps-bind, Keeps-for_each)
