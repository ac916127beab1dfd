-- ===== src/Prelude/Rows.antt =====
-- Tables as lists of rows: `findFirst`, `update` of the row with a key, `updateMany`.
use mathlib.Core.Path.{◌≡◌, sym, subst}
use mathlib.Core.Logic.{inl, inr, ◌≢◌}
use mathlib.Core.Bool.{Bool, true, false}
use mathlib.Core.List.{List, [], ◌∷◌}
use mathlib.Core.Option.{Option, none, some}
use native.Mathlib.Omega.{arith}
use neltrik_backend.Prelude.Tests.{if◌then◌else◌, Bool-cases}
use neltrik_backend.Prelude.Lists.{All, All-map}

some_unique : {A : Type 0} {x y : A} → some x ≡ some y → x ≡ y
some_unique e = cc

module _ {A : Type 0} where
  -- `findFirst({ where: p })`
  unfoldable pub find_first : (A → Bool) → List A → Option A
  find_first p [] = none
  find_first p (x ∷ xs) = if p x then some x else find_first p xs

  -- The first row that `p` accepts becomes `y`.
  unfoldable pub replace_first : (A → Bool) → A → List A → List A
  replace_first p y [] = []
  replace_first p y (x ∷ xs) = if p x then y ∷ xs else x ∷ replace_first p y xs

  -- `updateMany({ where: p, data: f })`
  unfoldable pub update_where : (A → Bool) → (A → A) → List A → List A
  update_where p f [] = []
  update_where p f (x ∷ xs) = (if p x then f x else x) ∷ update_where p f xs

  pub find_first-accepts :
      (p : A → Bool) (xs : List A) {x : A} → find_first p xs ≡ some x → p x ≡ true
  unfolding find_first
  find_first-accepts p [] e = cc
  find_first-accepts p (y ∷ ys) {x} e = ground (arith, find_first-accepts p ys {x = x})

  -- A row that `p` accepts is found by `p` after it has been put in place of the one found.
  pub find_first-replace_first :
      (p : A → Bool) (y : A) (xs : List A) {x : A}
      → find_first p xs ≡ some x
      → p y ≡ true
      → find_first p (replace_first p y xs) ≡ some y
  unfolding find_first replace_first
  find_first-replace_first p y [] e h = cc
  find_first-replace_first p y (z ∷ zs) {x} e h =
      ground (arith, find_first-replace_first p y zs {x = x})

  pub All-find_first {κ} :
      (P : A → Type κ) (p : A → Bool) (xs : List A) {x : A}
      → All P xs
      → find_first p xs ≡ some x
      → P x
  unfolding find_first
  All-find_first P p [] h e = cc
  All-find_first P p (y ∷ ys) h e = elim (Bool-cases (p y)) [
    | inl found ↦ subst P (some_unique (rw found at e)) h.0
    | inr other ↦ All-find_first P p ys h.1 (rw other at e)
  ]

  pub All-replace_first {κ} :
      (P : A → Type κ) (p : A → Bool) (y : A) (xs : List A)
      → P y
      → All P xs
      → All P (replace_first p y xs)
  unfolding replace_first
  All-replace_first P p y [] k h = tt
  All-replace_first P p y (x ∷ xs) k h = elim (Bool-cases (p x)) [
    | inl found ↦ rw found (k, h.1)
    | inr other ↦ rw other (h.0, All-replace_first P p y xs k h.1)
  ]

  pub All-update_where {κ} :
      (P : A → Type κ) (p : A → Bool) (f : A → A) (xs : List A)
      → ((x : A) → P x → P (f x))
      → All P xs
      → All P (update_where p f xs)
  unfolding update_where
  All-update_where P p f [] k h = tt
  All-update_where P p f (x ∷ xs) k h = elim (Bool-cases (p x)) [
    | inl found ↦ rw found (k x h.0, All-update_where P p f xs k h.1)
    | inr other ↦ rw other (h.0, All-update_where P p f xs k h.1)
  ]

  -- At most one row is accepted.
  pub data IsUnique (p : A → Bool) : List A → Type 0 where
    empty : IsUnique p []
    here : (x : A) (xs : List A) → p x ≡ true → All (λ y. p y ≡ false) xs → IsUnique p (x ∷ xs)
    there : (x : A) (xs : List A) → p x ≡ false → IsUnique p xs → IsUnique p (x ∷ xs)

  none_found :
      (p k : A → Bool) (xs : List A) {x : A}
      → ((y : A) → p y ≡ true → k y ≡ true)
      → All (λ y. k y ≡ false) xs
      → find_first p xs ≢ some x
  none_found p k xs {x} imp none_there found =
      clash (imp x (find_first-accepts p xs found))
        (All-find_first (λ y. k y ≡ false) p xs none_there found)
    where
      clash : {b : Bool} → b ≡ true → b ≡ false → ⊥
      clash a b = cc

  -- A row that `k` singles out, and that `p` has found, is put in place: all rows that `k` accepts
  -- satisfy what the new one does.
  pub replace_first-All :
      (Q : A → Type 0) (p k : A → Bool) (y : A) (xs : List A) {x : A}
      → ((z : A) → p z ≡ true → k z ≡ true)
      → IsUnique k xs
      → find_first p xs ≡ some x
      → Q y
      → All (λ z. k z ≡ true → Q z) (replace_first p y xs)
  unfolding find_first replace_first
  replace_first-All Q p k y _ imp IsUnique.empty found q = tt
  replace_first-All Q p k y _ {x} imp (IsUnique.here z zs yes_z no_zs) found q =
      elim (Bool-cases (p z)) [
        | inl hit ↦
            rw hit
              ((λ _. q), All-map (λ v. k v ≡ false) (λ v. k v ≡ true → Q v) zs (λ v a b. cc) no_zs)
        | inr miss ↦ absurd (none_found p k zs imp no_zs (rw miss at found))
      ]
  replace_first-All Q p k y _ {x} imp (IsUnique.there z zs no_z rest) found q =
      elim (Bool-cases (p z)) [
        | inl hit ↦ absurd (clash (imp z hit) no_z)
        | inr miss ↦ rw miss (
          (λ yes. absurd (clash yes no_z)),
          replace_first-All Q p k y zs imp rest (rw miss at found) q,
        )
      ]
    where
      clash : {b : Bool} → b ≡ true → b ≡ false → ⊥
      clash a b = cc

  -- A row that `k` singles out has been found: all rows that `k` accepts satisfy what it does.
  pub find_first-All :
      (Q : A → Type 0) (p k : A → Bool) (xs : List A) {x : A}
      → ((z : A) → p z ≡ true → k z ≡ true)
      → IsUnique k xs
      → find_first p xs ≡ some x
      → Q x
      → All (λ z. k z ≡ true → Q z) xs
  unfolding find_first
  find_first-All Q p k _ imp IsUnique.empty found q = tt
  find_first-All Q p k _ {x} imp (IsUnique.here z zs yes_z no_zs) found q =
      elim (Bool-cases (p z)) [
        | inl hit ↦ (
          (λ _. subst Q (sym (some_unique (rw hit at found))) q),
          All-map (λ v. k v ≡ false) (λ v. k v ≡ true → Q v) zs (λ v a b. cc) no_zs,
        )
        | inr miss ↦ absurd (none_found p k zs imp no_zs (rw miss at found))
      ]
  find_first-All Q p k _ {x} imp (IsUnique.there z zs no_z rest) found q = elim (Bool-cases (p z)) [
    | inl hit ↦ absurd (clash (imp z hit) no_z)
    | inr miss ↦
        ((λ yes. absurd (clash yes no_z)), find_first-All Q p k zs imp rest (rw miss at found) q)
  ]
    where
      clash : {b : Bool} → b ≡ true → b ≡ false → ⊥
      clash a b = cc
