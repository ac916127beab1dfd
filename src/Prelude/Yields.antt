-- ===== src/Prelude/Yields.antt =====
-- What a method keeps true of the world, and what holds of the value that it returns: a rule for each
-- way to build a method.
use mathlib.Core.Path.{◌≡◌, refl, subst}
use mathlib.Core.Bool.{Bool, true, false}
use mathlib.Core.Option.{Option, none, some}
use neltrik_backend.Prelude.Result.{Result, ok, err}
use neltrik_backend.Prelude.Exec.{Exec, pure, lift, or_throw, throw_if, ◌>>=◌}

pub record Yields {W E A : Type 0} (P : W → Type 0) (Q : A → Type 0) (m : Exec W E A) : Type 0 where
  pub keeps : (w : W) → P w → P (m w).1
  pub gives : (w : W) → P w → (a : A) → (m w).0 ≡ ok a → Q a

pub ok_unique : {E A : Type 0} {r : Result E A} {a b : A} → r ≡ ok a → r ≡ ok b → a ≡ b
ok_unique e h = cc

module _ {W E A : Type 0} {P : W → Type 0} {Q : A → Type 0} where
  pub Yields-pure : (a : A) → Q a → Yields {E = E} P Q (pure a)
  Yields-pure a q = record { keeps = λ w h. h; gives = λ w h b e. subst Q (ok_unique refl e) q }

  pub Yields-lift : (r : Result E A) → ((a : A) → r ≡ ok a → Q a) → Yields P Q (lift r)
  Yields-lift r q = record { keeps = λ w h. h; gives = λ w h a e. q a e }

  pub Yields-or_throw :
      (o : Option A) (e : E) → ((a : A) → o ≡ some a → Q a) → Yields P Q (or_throw o e)
  Yields-or_throw none e q = record { keeps = λ w h. h; gives = λ w h a e. cc }
  Yields-or_throw (some a) e q = Yields-pure a (q a refl)

module _ {W E : Type 0} {P : W → Type 0} where
  pub Yields-throw_if : (b : Bool) (e : E) → Yields P (λ _. b ≡ false) (throw_if {W = W} b e)
  Yields-throw_if true e = record { keeps = λ w h. h; gives = λ w h a e. cc }
  Yields-throw_if false e = record { keeps = λ w h. h; gives = λ w h a e. refl }

module _ {W E A B : Type 0} {P : W → Type 0} {Q : A → Type 0} {R : B → Type 0} where
  resume :
      (r : Result E A) (w : W) (f : A → Exec W E B)
      → ((a : A) → Q a → Yields P R (f a))
      → ((a : A) → r ≡ ok a → Q a)
      → P w
      → P ((lift r >>= f) w).1 × ((b : B) → ((lift r >>= f) w).0 ≡ ok b → R b)
  resume (ok a) w f yf q h = ((yf a (q a refl)).keeps w h, (yf a (q a refl)).gives w h)
  resume (err e) w f yf q h = (h, λ b e. cc)

  pub Yields-bind :
      (m : Exec W E A) (f : A → Exec W E B)
      → Yields P Q m
      → ((a : A) → Q a → Yields P R (f a))
      → Yields P R (m >>= f)
  Yields-bind m f ym yf = record {
    keeps = λ w h. (resume (m w).0 (m w).1 f yf (ym.gives w h) (ym.keeps w h)).0;
    gives = λ w h. (resume (m w).0 (m w).1 f yf (ym.gives w h) (ym.keeps w h)).1;
  }

-- The value that a call gives does not matter.
abbrev pub Trivial : {A : Type 0} → A → Type 0
Trivial _ = Unit {0}

module _ {W E : Type 0} {P : W → Type 0} where
  pub Yields-any :
      {A : Type 0} {Q : A → Type 0} (m : Exec W E A) → Yields P Q m → Yields P Trivial m
  Yields-any m ym = record { keeps = ym.keeps; gives = λ w h a e. tt }

  pub Yields-then :
      {A B : Type 0} {R : B → Type 0} (m : Exec W E A) (f : A → Exec W E B)
      → Yields P Trivial m
      → ((a : A) → Yields P R (f a))
      → Yields P R (m >>= f)
  Yields-then m f ym yf = Yields-bind m f ym (λ a _. yf a)

  pub Yields-any_lift : {A : Type 0} (r : Result E A) → Yields P Trivial (lift r)
  Yields-any_lift r = Yields-lift r (λ a e. tt)

  pub Yields-any_pure : {A : Type 0} (a : A) → Yields {E = E} P Trivial (pure a)
  Yields-any_pure a = Yields-pure a tt

  pub Yields-any_or_throw : {A : Type 0} (o : Option A) (e : E) → Yields P Trivial (or_throw o e)
  Yields-any_or_throw o e = Yields-or_throw o e (λ a found. tt)

  pub Yields-any_throw_if : (b : Bool) (e : E) → Yields P Trivial (throw_if {W = W} b e)
  Yields-any_throw_if b e = Yields-any _ (Yields-throw_if b e)

-- The rules for a method whose values do not matter.
pub ruleset yields_rules =
    (Yields-then, Yields-any_lift, Yields-any_pure, Yields-any_or_throw, Yields-any_throw_if)

-- What a returned call went through: the value of its first part, and the rest from there.
pub record Returned {W E A B : Type 0} (m : Exec W E A) (f : A → Exec W E B) (w : W) (b : B)
    : Type 0 where
  pub value : A
  pub first : (m w).0 ≡ ok value
  pub rest : (f value (m w).1).0 ≡ ok b
  pub world : (m >>= f) w ≡ f value (m w).1

module _ {W E A B : Type 0} where
  lift-Returned :
      (r : Result E A) (w : W) (f : A → Exec W E B) {b : B}
      → ((lift r >>= f) w).0 ≡ ok b
      → Returned (lift r) f w b
  lift-Returned (ok a) w f e = record { value = a; first = refl; rest = e; world = refl }
  lift-Returned (err x) w f e = cc

  pub bind-Returned :
      (m : Exec W E A) (f : A → Exec W E B) (w : W) {b : B}
      → ((m >>= f) w).0 ≡ ok b
      → Returned m f w b
  bind-Returned m f w e =
      let r = lift-Returned (m w).0 (m w).1 f e in
      record { value = r.value; first = r.first; rest = r.rest; world = r.world }
