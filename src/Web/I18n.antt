-- ===== src/Web/I18n.antt =====
-- internal/web/i18n.go: the languages of the public pages.
pub mod Messages
pub mod Script
use Prim.Native.String.{String}
use swosh.Common.{
  ℕ, zero, suc, ◌+◌, ◌-◌, ◌*◌, ◌/◌, ◌%◌, ◌^◌, ◌≤◌, ◌<◌, Char, code, len, ◌≡◌, refl, sym, ap, ◌∙◌,
  subst, ◌≢◌, ◌↔◌, ◌⊎◌, inl, inr, Bool, true, false, not, ◌&&◌, ◌||◌, Option, none, some, List, [],
  ◌∷◌, ◌++◌, map, arith, ◌==◌, eq_iff, eq_refl, ltb, leb, eqb, if◌then◌else◌, ltb→lt, lt→ltb,
  leb→le, eqb_iff, Bool-cases, Option-cases, Result, ok, err, Result-cases, length, get_or, all,
  length-append, All, contains,
}
use swosh.Common.Int.{ℤ}
use swosh.Common.Decimal.{itoa}
use swosh.Web.I18n.Messages.{Translation, messages}
use Prim.Native.String.{◌++◌ as ◌<>◌}

pub data Lang : Type 0 where
  english swedish : Lang

abbrev pub lang_code : Lang → String
lang_code english = "en"
lang_code swedish = "sv"

abbrev pub langs : List Lang
langs = english ∷ swedish ∷ []

-- The loop of `parseLang`.
unfoldable pub lang_among : String → List Lang → Option Lang
lang_among s [] = none
lang_among s (l ∷ ls) = if lang_code l == s then some l else lang_among s ls

unfoldable pub parse_lang : String → Option Lang
unfolding lang_among
parse_lang s = lang_among s langs

-- An argument of a message: a number or a text.
pub data Arg : Type 0 where
  num : ℤ → Arg
  str : String → Arg

abbrev with_char : Char → Option String → Option String
with_char c none = none
with_char c (some s) = some (String.◌∷◌ c s)

abbrev with_arg : ℕ → Arg → Option String → Option String
with_arg verb a none = none
with_arg verb (num n) (some s) = if eqb verb b'd' then some (◌<>◌ (itoa n) s) else none
with_arg verb (str t) (some s) = if eqb verb b's' then some (◌<>◌ t s) else none

-- `fmt.Sprintf` for the verbs %d and %s, each at an argument of its kind; `none` where the format
-- and the arguments do not fit, which fmt reports inside its result.
unfoldable pub sprintf : String → List Arg → Option String
unfolding itoa
sprintf String.[] [] = some ""
sprintf String.[] (a ∷ args) = none
sprintf (String.◌∷◌ c String.[]) [] = some (String.◌∷◌ c "")
sprintf (String.◌∷◌ c String.[]) (a ∷ args) = none
sprintf (String.◌∷◌ c (String.◌∷◌ v s)) [] =
    let rest = with_char c (sprintf (String.◌∷◌ v s) []) in if eqb (code c) b'%' then none else rest
sprintf (String.◌∷◌ c (String.◌∷◌ v s)) (a ∷ args) =
    let text = with_char c (sprintf (String.◌∷◌ v s) (a ∷ args)) in
    let value = with_arg (code v) a (sprintf s args) in if eqb (code c) b'%' then value else text

unfoldable pub find_message : String → List (String × Translation) → Option Translation
find_message key [] = none
find_message key ((k, t) ∷ rest) = if k == key then some t else find_message key rest

abbrev pub translation_in : Lang → Translation → String
translation_in english t = t.en
translation_in swedish t = t.sv

abbrev pub format : Lang → List Arg → Option Translation → Option String
format l args none = none
format l [] (some t) = some (translation_in l t)
format l (a ∷ args) (some t) = sprintf (translation_in l t) (a ∷ args)

-- `tr`; `none` is its error, for which `mustTr` panics.
unfoldable pub tr : Lang → String → List Arg → Option String
unfolding find_message messages sprintf
tr l key args = format l args (find_message key messages)
