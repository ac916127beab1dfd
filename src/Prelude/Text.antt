-- ===== src/Prelude/Text.antt =====
-- JavaScript strings as lists of code units: equality, `trim`, `includes` on an array of strings.
use Prim.Native.Char.{code}
use Prim.Native.String.{String}
use mathlib.Core.Path.{◌≡◌, refl}
use mathlib.Core.Logic.{◌↔◌}
use mathlib.Core.Bool.{Bool, true, false, ◌&&◌, ◌||◌}
use mathlib.Core.List.{List, [], ◌∷◌, reverse}
use Prim.Native.Nat.{ℕ}
use native.Mathlib.Omega.{arith}
use neltrik_backend.Prelude.Tests.{leb, ◌==◌}
use neltrik_backend.Prelude.Lists.{is_empty}

abbrev pub Text : Type 0
Text = List ℕ

-- A literal of the source.
abbrev pub text : String → Text
text String.[] = []
text (String.◌∷◌ c s) = code c ∷ text s

-- `a === b`
unfoldable pub text_eq : Text → Text → Bool
text_eq [] [] = true
text_eq [] (_ ∷ _) = false
text_eq (_ ∷ _) [] = false
text_eq (a ∷ s) (b ∷ t) = a == b && text_eq s t

pub text_eq_iff : (s t : Text) → (text_eq s t ≡ true) ↔ (s ≡ t)
unfolding text_eq
text_eq_iff [] [] = (λ _. refl, λ _. refl)
text_eq_iff [] (b ∷ t) = (λ e. cc, λ e. cc)
text_eq_iff (a ∷ s) [] = (λ e. cc, λ e. cc)
text_eq_iff (a ∷ s) (b ∷ t) =
    (λ e. ground (arith, text_eq_iff s t), λ e. ground (arith, text_eq_iff s t))

pub text_eq_refl : (s : Text) → text_eq s s ≡ true
text_eq_refl s = (text_eq_iff s s).1 refl

-- White space and line terminators of ECMAScript.
unfoldable pub is_space : ℕ → Bool
is_space c =
    (leb 9 c && leb c 13)
    || c == 32
    || c == 160
    || c == 0x1680
    || (leb 0x2000 c && leb c 0x200a)
    || c == 0x2028
    || c == 0x2029
    || c == 0x202f
    || c == 0x205f
    || c == 0x3000
    || c == 0xfeff

trim_start : Text → Text
unfolding is_space
trim_start [] = []
trim_start (c ∷ s) = elim (is_space c) [ true ↦ trim_start s | false ↦ c ∷ s ]

-- `s.trim()`
unfoldable pub trim : Text → Text
unfolding trim_start
trim s = reverse (trim_start (reverse (trim_start s)))

-- `s.trim() === ""`
unfoldable pub is_blank : Text → Bool
unfolding trim
is_blank s = is_empty (trim s)

-- `ts.includes(s)`
unfoldable pub includes : List Text → Text → Bool
unfolding text_eq
includes [] s = false
includes (t ∷ ts) s = text_eq t s || includes ts s
