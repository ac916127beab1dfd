-- ===== src/Prelude/Lists.antt =====
-- Lists measured by native numbers, their Boolean tests, and predicates by recursion.
use Prim.Native.Nat.{ℕ, suc, ◌+◌}
use mathlib.Core.Path.{◌≡◌, refl}
use mathlib.Core.Bool.{Bool, true, false, ◌&&◌, ◌||◌}
use mathlib.Core.List.{List, [], ◌∷◌, ◌++◌}
use mathlib.Core.Option.{Option, none, some}
use native.Mathlib.Omega.{arith}
use mathlib.Core.Logic.{◌⊎◌, inl, inr}
use neltrik_backend.Prelude.Tests.{if◌then◌else◌, Bool-cases}

module _ {ℓ} {A : Type ℓ} where
  abbrev pub length : List A → ℕ
  length [] = 0
  length (_ ∷ xs) = suc (length xs)

  -- `xs.length === 0`
  abbrev pub is_empty : List A → Bool
  is_empty [] = true
  is_empty (_ ∷ _) = false

  -- `xs[xs.length - 1]`, with `null` for an empty array
  abbrev pub get_last? : List A → Option A
  get_last? [] = none
  get_last? (x ∷ []) = some x
  get_last? (_ ∷ (y ∷ ys)) = get_last? (y ∷ ys)

  -- `xs.slice(0, -1)`
  abbrev pub drop_last : List A → List A
  drop_last [] = []
  drop_last (_ ∷ []) = []
  drop_last (x ∷ (y ∷ ys)) = x ∷ drop_last (y ∷ ys)

  -- `xs.some(p)`
  abbrev pub any : (A → Bool) → List A → Bool
  any p [] = false
  any p (x ∷ xs) = p x || any p xs

  -- `xs.every(p)`
  abbrev pub all : (A → Bool) → List A → Bool
  all p [] = true
  all p (x ∷ xs) = p x && all p xs

  -- `xs.filter(p)`
  abbrev pub filter : (A → Bool) → List A → List A
  filter p [] = []
  filter p (x ∷ xs) = let rest = filter p xs in if p x then x ∷ rest else rest

  abbrev pub All {κ} : (A → Type κ) → List A → Type κ
  All P [] = Unit
  All P (x ∷ xs) = P x × All P xs

  abbrev pub Any : (A → Type 0) → List A → Type 0
  Any P [] = ⊥
  Any P (x ∷ xs) = P x ⊎ Any P xs

  pub Any-map : (P Q : A → Type 0) (xs : List A) → ((x : A) → P x → Q x) → Any P xs → Any Q xs
  Any-map P Q [] f h = elim h [ ]
  Any-map P Q (x ∷ xs) f (inl h) = inl (f x h)
  Any-map P Q (x ∷ xs) f (inr h) = inr (Any-map P Q xs f h)

  pub any_of_Any :
      (P : A → Type 0) (p : A → Bool) (xs : List A)
      → ((x : A) → P x → p x ≡ true)
      → Any P xs
      → any p xs ≡ true
  any_of_Any P p [] f h = elim h [ ]
  any_of_Any P p (x ∷ xs) f (inl h) = rw (f x h) refl
  any_of_Any P p (x ∷ xs) f (inr h) = elim (Bool-cases (p x)) [
    | inl passes ↦ rw passes refl
    | inr fails ↦ rw fails (any_of_Any P p xs f h)
  ]

  pub any_of_none :
      (P : A → Type 0) (p : A → Bool) (xs : List A)
      → ((x : A) → p x ≡ true → P x)
      → ¬ Any P xs
      → any p xs ≡ false
  any_of_none P p [] f h = refl
  any_of_none P p (x ∷ xs) f h = elim (Bool-cases (p x)) [
    | inl passes ↦ absurd (h (inl (f x passes)))
    | inr fails ↦ rw fails (any_of_none P p xs f (λ a. h (inr a)))
  ]

  -- What a filter lets through is still there, if it passes the test.
  pub Any-filter :
      (P : A → Type 0) (p : A → Bool) (xs : List A)
      → ((x : A) → P x → p x ≡ true)
      → Any P xs
      → Any P (filter p xs)
  Any-filter P p [] f h = h
  Any-filter P p (x ∷ xs) f (inl h) = rw (f x h) (inl h)
  Any-filter P p (x ∷ xs) f (inr h) = elim (Bool-cases (p x)) [
    | inl passes ↦ rw passes (inr (Any-filter P p xs f h))
    | inr fails ↦ rw fails (Any-filter P p xs f h)
  ]

  pub length-append : (xs ys : List A) → length (xs ++ ys) ≡ length xs + length ys
  length-append [] ys = omega arith
  length-append (x ∷ xs) ys = omega (arith, length-append xs ys)

  pub All-append {κ} : (P : A → Type κ) (xs ys : List A) → All P xs → All P ys → All P (xs ++ ys)
  All-append P [] ys h k = k
  All-append P (x ∷ xs) ys h k = (h.0, All-append P xs ys h.1 k)

  pub get_last?-append : (xs : List A) (y : A) → get_last? (xs ++ y ∷ []) ≡ some y
  get_last?-append [] y = refl
  get_last?-append (x ∷ []) y = refl
  get_last?-append (x ∷ (z ∷ zs)) y = get_last?-append (z ∷ zs) y

  pub drop_last-append : (xs : List A) (y : A) → drop_last (xs ++ y ∷ []) ≡ xs
  drop_last-append [] y = refl
  drop_last-append (x ∷ []) y = refl
  drop_last-append (x ∷ (z ∷ zs)) y = λ i. x ∷ drop_last-append (z ∷ zs) y i

  pub All-map {κ μ} :
      (P : A → Type κ) (Q : A → Type μ) (xs : List A) → ((x : A) → P x → Q x) → All P xs → All Q xs
  All-map P Q [] f h = tt
  All-map P Q (x ∷ xs) f h = (f x h.0, All-map P Q xs f h.1)

  pub All-zip {κ μ ν} :
      (P : A → Type κ) (Q : A → Type μ) (R : A → Type ν) (xs : List A)
      → ((x : A) → P x → Q x → R x)
      → All P xs
      → All Q xs
      → All R xs
  All-zip P Q R [] f h k = tt
  All-zip P Q R (x ∷ xs) f h k = (f x h.0 k.0, All-zip P Q R xs f h.1 k.1)

  -- What a filter lets through passes the test.
  pub All-filter : (p : A → Bool) (xs : List A) → All (λ x. p x ≡ true) (filter p xs)
  All-filter p [] = tt
  All-filter p (x ∷ xs) = elim (Bool-cases (p x)) [
    | inl passes ↦ rw passes (passes, All-filter p xs)
    | inr fails ↦ rw fails (All-filter p xs)
  ]

  -- A filter keeps what holds of all.
  pub All-filter_of {κ} :
      (P : A → Type κ) (p : A → Bool) (xs : List A) → All P xs → All P (filter p xs)
  All-filter_of P p [] h = tt
  All-filter_of P p (x ∷ xs) h = elim (Bool-cases (p x)) [
    | inl passes ↦ rw passes (h.0, All-filter_of P p xs h.1)
    | inr fails ↦ rw fails (All-filter_of P p xs h.1)
  ]

  pub All-of_any : (p : A → Bool) (xs : List A) → any p xs ≡ false → All (λ x. p x ≡ false) xs
  All-of_any p [] h = tt
  All-of_any p (x ∷ xs) h = elim (Bool-cases (p x)) [
    | inl passes ↦ absurd (true_any (any p xs) (rw passes at h))
    | inr fails ↦ (fails, All-of_any p xs (rw fails at h))
  ]
    where
      true_any : (b : Bool) → true ≡ false → ⊥
      true_any b e = cc

  pub all_false : (p : A → Bool) (xs : List A) → All (λ x. p x ≡ false) xs → any p xs ≡ false
  all_false p [] h = refl
  all_false p (x ∷ xs) h = rw h.0 (all_false p xs h.1)
