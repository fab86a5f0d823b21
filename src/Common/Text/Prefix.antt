-- ===== src/Common/Text/Prefix.antt =====
-- Go's `strings.HasPrefix` and `strings.CutPrefix`.
use swosh.Common.Tests.{eqb, if◌then◌else◌, Bool-cases}
use Prim.Native.Char.{code}
use Prim.Native.String.{String, [], ◌∷◌, ◌++◌}
use mathlib.Core.Path.{◌≡◌, refl}
use mathlib.Core.Logic.{inl, inr}
use mathlib.Core.Bool.{Bool, true, false, ◌&&◌}
use mathlib.Core.Option.{Option, none, some}
use native.Mathlib.Omega.{arith}
use text.Mathlib.TextEquality.{codes_equal}
use text.Mathlib.TextLemmas.{nil-append, cons-append}

unfoldable pub has_prefix : String → String → Bool
has_prefix s [] = true
has_prefix [] (d ∷ p) = false
has_prefix (c ∷ s) (d ∷ p) = eqb (code c) (code d) && has_prefix s p

unfoldable pub cut_prefix : String → String → Option String
cut_prefix s [] = some s
cut_prefix [] (d ∷ p) = none
cut_prefix (c ∷ s) (d ∷ p) =
    let rest = cut_prefix s p in if eqb (code c) (code d) then rest else none

pub cut_prefix-append : (p s : String) → cut_prefix (p ++ s) p ≡ some s
unfolding cut_prefix
cut_prefix-append [] s = rw nil-append refl
cut_prefix-append (c ∷ p) s = rw cons-append (ground (arith, cut_prefix-append p s))

pub cut_prefix_sound : (s p n : String) → cut_prefix s p ≡ some n → s ≡ p ++ n
unfolding cut_prefix
cut_prefix_sound s [] n e = rw nil-append cc
cut_prefix_sound [] (d ∷ p) n e = cc
cut_prefix_sound (c ∷ s) (d ∷ p) n e = elim (Bool-cases (eqb (code c) (code d))) [
  | inl same ↦
      rw cons-append
        (cc (codes_equal c d (ground arith), cut_prefix_sound s p n (rw (same, cut_prefix) at e)))
  | inr other ↦ absurd (cc (rw (other, cut_prefix) at e))
]
