-- ===== src/Prelude/Leads.antt =====
-- From what holds before a method to what holds after it, when it returns.
use mathlib.Core.Path.{◌≡◌, refl, sym, subst}
use neltrik_backend.Prelude.Result.{Result, ok, err}
use neltrik_backend.Prelude.Exec.{Exec, lift, for_each, ◌>>=◌}
use mathlib.Core.List.{List, [], ◌∷◌}
use mathlib.Core.Logic.{inl, inr}
use neltrik_backend.Prelude.Lists.{Any}
use neltrik_backend.Prelude.Keeps.{Keeps, Keeps-for_each}
use neltrik_backend.Prelude.Yields.{bind-Returned}

pub record Leads {W E A : Type 0} (P Q : W → Type 0) (m : Exec W E A) : Type 0 where
  pub run : (w : W) → P w → (a : A) → (m w).0 ≡ ok a → Q (m w).1

module _ {W E : Type 0} where
  pub Leads-bind :
      {A B : Type 0} {P Q R : W → Type 0} (m : Exec W E A) (f : A → Exec W E B)
      → Leads P Q m
      → ((a : A) → Leads Q R (f a))
      → Leads P R (m >>= f)
  Leads-bind {R = R} m f lm lf = record {
    run = λ w h b e.
        let r = bind-Returned m f w e in
        subst (λ q. R q.1) (sym r.world)
          ((lf r.value).run (m w).1 (lm.run w h r.value r.first) b r.rest);
  }

  pub Leads-lift : {A : Type 0} {P : W → Type 0} (r : Result E A) → Leads P P (lift {W = W} r)
  Leads-lift r = record { run = λ w h a e. h }

  -- What a call that returns establishes whatever held before, and what follows.
  pub Leads-last :
      {A B : Type 0} {P R : W → Type 0} (m : Exec W E A) (f : A → Exec W E B)
      → ((a : A) → Leads (λ _. Unit {0}) R (f a))
      → Leads P R (m >>= f)
  Leads-last m f lf = Leads-bind m f (record { run = λ w h a e. tt }) lf

  pub Leads-after :
      {A B : Type 0} {P R : W → Type 0} (m : Exec W E A) (f : A → Exec W E B)
      → Leads P P m
      → ((a : A) → Leads P R (f a))
      → Leads P R (m >>= f)
  Leads-after m f lm lf = Leads-bind m f lm lf

  pub Leads-lift_with :
      {A B : Type 0} {P R : W → Type 0} (r : Result E A) (f : A → Exec W E B)
      → ((a : A) → r ≡ ok a → Leads P R (f a))
      → Leads P R (lift r >>= f)
  Leads-lift_with (ok a) f lf = record { run = λ w h b e. (lf a refl).run w h b e }
  Leads-lift_with (err x) f lf = record { run = λ w h b e. cc }

  pub Leads-Keeps : {A : Type 0} {P : W → Type 0} (m : Exec W E A) → Keeps P m → Leads P P m
  Leads-Keeps m km = record { run = λ w h a e. km.run w h }

  -- A loop of which one round establishes what all rounds keep.
  pub Leads-for_each :
      {A : Type 0} {Q : W → Type 0} (xs : List A) (body : A → Exec W E (Unit {0}))
      → ((x : A) → Keeps Q (body x))
      → Any (λ x. Leads (λ _. Unit {0}) Q (body x)) xs
      → Leads (λ _. Unit {0}) Q (for_each xs body)
  unfolding for_each
  Leads-for_each [] body k h = elim h [ ]
  Leads-for_each (x ∷ xs) body k (inl h) =
      Leads-bind (body x) _ h (λ _. Leads-Keeps (for_each xs body) (Keeps-for_each xs body k))
  Leads-for_each (x ∷ xs) body k (inr h) = Leads-last (body x) _ (λ _. Leads-for_each xs body k h)
