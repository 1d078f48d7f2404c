-- ===== src/Prelude/Lists.antt =====
-- Lists measured by native numbers, membership tests, and maps as functions on texts.
use Prim.Native.Nat.{ℕ, suc, ◌+◌}
use mathlib.Core.Path.{◌≡◌}
use mathlib.Core.Bool.{Bool, false, ◌||◌}
use mathlib.Core.List.{List, [], ◌∷◌, ◌++◌}
use mathlib.Core.Option.{Option}
use native.Mathlib.Omega.{arith}
use Prim.Native.String.{String}
use intercom_swap.Prelude.Tests.{if◌then◌else◌}
use text.Mathlib.Text.{◌==◌ as str_eq}

module _ {ℓ} {A : Type ℓ} where
  abbrev pub length : List A → ℕ
  length [] = 0
  length (x ∷ xs) = suc (length xs)

  pub length-append : (xs ys : List A) → length (xs ++ ys) ≡ length xs + length ys
  length-append [] ys = omega arith
  length-append (x ∷ xs) ys = omega (arith, length-append xs ys)

-- Whether a text is in a list.
abbrev pub elem : String → List String → Bool
elem s [] = false
elem s (t ∷ ts) = str_eq t s || elem s ts

-- A map with one key set, or with one key deleted.
abbrev pub update {ℓ} : {A : Type ℓ} → (String → Option A) → String → Option A → String → Option A
update m key v other = if str_eq key other then v else m other
