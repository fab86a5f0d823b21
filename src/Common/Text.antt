-- ===== src/Common/Text.antt =====
-- What the program uses of Go's `strings`, `unicode` and `strconv`. A Go string is a native text:
-- its code points, with `len` for the bytes of its UTF-8.
pub mod Prefix
pub mod Location
use Prim.Native.Char.{Char, code}
use Prim.Native.Nat.{ℕ, zero, suc, ◌+◌}
use Prim.Native.String.{String, [], ◌∷◌}
use mathlib.Core.Path.{◌≡◌, refl, sym, ap, ◌∙◌}
use mathlib.Core.Logic.{◌↔◌, inl, inr}
use mathlib.Core.Bool.{Bool, true, false, not, ◌&&◌, ◌||◌}
use mathlib.Core.Option.{Option, none, some}
use native.Mathlib.Omega.{arith}
use text.Mathlib.Text.{find?}
use text.Mathlib.TextLemmas.{nil-append, cons-append}
use Prim.Native.String
use swosh.Common.Tests.{ltb, leb, eqb, if◌then◌else◌, Bool-cases}

-- `unicode.IsSpace`
unfoldable pub is_space : ℕ → Bool
is_space c =
    leb 0x09 c && leb c 0x0d
    || eqb c 0x20
    || eqb c 0x85
    || eqb c 0xa0
    || eqb c 0x1680
    || leb 0x2000 c && leb c 0x200a
    || eqb c 0x2028
    || eqb c 0x2029
    || eqb c 0x202f
    || eqb c 0x205f
    || eqb c 0x3000

-- Every code point passes the test.
abbrev pub every : (ℕ → Bool) → String → Bool
every p [] = true
every p (c ∷ s) = p (code c) && every p s

-- `strings.ContainsFunc`
abbrev pub contains_func : (ℕ → Bool) → String → Bool
contains_func p [] = false
contains_func p (c ∷ s) = p (code c) || contains_func p s

abbrev pub is_empty : String → Bool
is_empty [] = true
is_empty (c ∷ s) = false

abbrev pub is_cons : String → Bool
is_cons [] = false
is_cons (c ∷ s) = true

-- `strings.Contains`
abbrev pub has_text : String → String → Bool
has_text t part = elim (find? t part) [ none ↦ false | some i ↦ true ]

-- `strings.TrimLeftFunc`
unfoldable pub trim_left : (ℕ → Bool) → String → String
trim_left p [] = []
trim_left p (c ∷ s) = if p (code c) then trim_left p s else c ∷ s

-- `strings.TrimRightFunc`: a code point goes if it passes and nothing is left behind it.
unfoldable pub trim_right : (ℕ → Bool) → String → String
trim_right p [] = []
trim_right p (c ∷ s) =
    let rest = trim_right p s in if p (code c) && is_empty rest then [] else c ∷ rest

-- `strings.TrimFunc`, which is `Trim` where the test is membership in the cutset.
unfoldable pub trim_func : (ℕ → Bool) → String → String
unfolding trim_left trim_right
trim_func p s = trim_right p (trim_left p s)

-- `strings.TrimSpace`
unfoldable pub trim_space : String → String
unfolding trim_func is_space
trim_space s = trim_func is_space s

-- `len(utf16.Encode([]rune(s)))`: a code point beyond the basic plane takes two units.
unfoldable pub utf16_length : String → ℕ
utf16_length [] = 0
utf16_length (c ∷ s) = (if ltb (code c) 0x10000 then 1 else 2) + utf16_length s

pub is_empty_iff : (s : String) → (is_empty s ≡ true) ↔ (s ≡ "")
is_empty_iff s = (to s, λ e. ap is_empty e)
  where
    to : (s : String) → is_empty s ≡ true → s ≡ ""
    to [] _ = refl
    to (c ∷ s) h = cc

-- Nothing is left of a text exactly when every code point of it goes.
trim_right-empty : (p : ℕ → Bool) (s : String) → is_empty (trim_right p s) ≡ every p s
unfolding trim_right
trim_right-empty p [] = refl
trim_right-empty p (c ∷ s) = elim (Bool-cases (p (code c))) [
  | inl goes ↦ elim (Bool-cases (is_empty (trim_right p s))) [
    | inl gone ↦ rw (goes, gone) (sym gone ∙ trim_right-empty p s)
    | inr left ↦ rw (goes, left) (sym left ∙ trim_right-empty p s)
  ]
  | inr stays ↦ rw stays refl
]

trim_left-every : (p : ℕ → Bool) (s : String) → every p s ≡ true → trim_left p s ≡ ""
unfolding trim_left
trim_left-every p [] h = refl
trim_left-every p (c ∷ s) h = ground (arith, trim_left-every p s)

every-trim_left : (p : ℕ → Bool) (s : String) → every p (trim_left p s) ≡ true → every p s ≡ true
unfolding trim_left
every-trim_left p [] h = refl
every-trim_left p (c ∷ s) h = ground (arith, every-trim_left p s)

pub trim_func-empty : (p : ℕ → Bool) (s : String) → (trim_func p s ≡ "") ↔ (every p s ≡ true)
unfolding trim_func trim_right
trim_func-empty p s = (
  λ e. every-trim_left p s (sym (trim_right-empty p (trim_left p s)) ∙ ap is_empty e),
  λ h. rw (trim_left-every p s h, trim_right) refl,
)

every-trim_right : (p : ℕ → Bool) (s : String) → every p s ≡ true → trim_right p s ≡ ""
every-trim_right p s h = (is_empty_iff (trim_right p s)).0 (trim_right-empty p s ∙ h)

-- Of a text whose code points all stay, followed by one whose code points all go, the first is left.
pub trim_right-append :
    (p : ℕ → Bool) (s t : String)
    → every (λ c. not (p c)) s ≡ true
    → every p t ≡ true
    → trim_right p (Prim.Native.String.◌++◌ s t) ≡ s
unfolding trim_right
trim_right-append p [] t h e = rw nil-append (every-trim_right p t e)
trim_right-append p (c ∷ s) t h e = rw cons-append (ground (arith, trim_right-append p s t))

trim_right-stays :
    (p : ℕ → Bool) (s : String) → every (λ c. not (p c)) s ≡ true → trim_right p s ≡ s
unfolding trim_right
trim_right-stays p [] h = refl
trim_right-stays p (c ∷ s) h = ground (arith, trim_right-stays p s)

trim_left-stays : (p : ℕ → Bool) (s : String) → every (λ c. not (p c)) s ≡ true → trim_left p s ≡ s
unfolding trim_left
trim_left-stays p [] h = refl
trim_left-stays p (c ∷ s) h = ground arith

-- A text without spaces has none to trim.
pub trim_space-stays : (s : String) → every (λ c. not (is_space c)) s ≡ true → trim_space s ≡ s
unfolding trim_space trim_func
trim_space-stays s h = rw (trim_left-stays is_space s h) (trim_right-stays is_space s h)

-- What every code point passes, it passes of a test that is weaker.
pub every-weaken :
    (p q : ℕ → Bool) (s : String)
    → ((c : ℕ) → p c ≡ true → q c ≡ true)
    → every p s ≡ true
    → every q s ≡ true
every-weaken p q [] h e = refl
every-weaken p q (c ∷ s) h e = ground (arith, every-weaken p q s h, h (code c))

-- The text behind a pointer or of a form's field, and the empty one where there is none.
abbrev pub or_empty : Option String → String
or_empty none = ""
or_empty (some s) = s

-- The character at an index; it is asked for inside the text only.
unfoldable pub char_of : String → ℕ → Char
char_of [] i = "?"
char_of (c ∷ s) zero = c
char_of (c ∷ s) (suc i) = char_of s i
