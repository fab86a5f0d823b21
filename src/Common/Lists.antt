-- ===== src/Common/Lists.antt =====
-- Lists measured by native numbers, tests over lists, and predicates on every element.
use Prim.Native.Nat.{ℕ, zero, suc, ◌+◌, ◌<◌}
use Prim.Native.String.{String}
use mathlib.Core.Path.{◌≡◌, subst}
use mathlib.Core.Logic.{inl, inr}
use mathlib.Core.Bool.{Bool, true, false, ◌&&◌, ◌||◌}
use mathlib.Core.List.{List, [], ◌∷◌, ◌++◌}
use native.Mathlib.Omega.{arith}
use text.Mathlib.Text.{◌==◌}
use swosh.Common.Tests.{eqb, if◌then◌else◌, Bool-cases}

module _ {ℓ} {A : Type ℓ} where
  abbrev pub length : List A → ℕ
  length [] = 0
  length (x ∷ xs) = suc (length xs)

  abbrev pub get_or : List A → ℕ → A → A
  get_or [] i d = d
  get_or (x ∷ xs) zero d = x
  get_or (x ∷ xs) (suc i) d = get_or xs i d

  abbrev pub all : (A → Bool) → List A → Bool
  all p [] = true
  all p (x ∷ xs) = p x && all p xs

  pub length-append : (xs ys : List A) → length (xs ++ ys) ≡ length xs + length ys
  length-append [] ys = omega arith
  length-append (x ∷ xs) ys = omega (arith, length-append xs ys)

module _ {ℓ κ} {A : Type ℓ} (P : A → Type κ) where
  abbrev pub All : List A → Type κ
  All [] = Unit
  All (x ∷ xs) = P x × All xs

-- `slices.Contains` on strings.
abbrev pub contains : List String → String → Bool
contains [] a = false
contains (x ∷ xs) a = x == a || contains xs a

-- A test of every number below a bound.
abbrev pub holds_to : (ℕ → Bool) → ℕ → Bool
holds_to p zero = true
holds_to p (suc n) = if p n then holds_to p n else false

pub holds_at : (p : ℕ → Bool) (i n : ℕ) → i < n → holds_to p n ≡ true → p i ≡ true
holds_at p i zero lt h = absurd (omega arith)
holds_at p i (suc n) lt h = elim (Bool-cases (eqb i n)) [
  | inl last ↦ let same : n ≡ i = ground arith in subst (λ j. p j ≡ true) same (ground arith)
  | inr before ↦ holds_at p i n (ground arith) (ground arith)
]
