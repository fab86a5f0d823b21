-- ===== src/Swish/Json.antt =====
-- What encoding/json writes for the structs of internal/swish, with HTML escaping off. A JSON text is
-- the list of its bytes.
pub mod Reader
pub mod Laws
use Prim.Native.String.{String}
use swosh.Common.{
  ℕ, zero, suc, ◌+◌, ◌-◌, ◌*◌, ◌/◌, ◌%◌, ◌^◌, ◌≤◌, ◌<◌, Char, code, len, ◌≡◌, refl, sym, ap, ◌∙◌,
  subst, ◌≢◌, ◌↔◌, ◌⊎◌, inl, inr, Bool, true, false, not, ◌&&◌, ◌||◌, Option, none, some, List, [],
  ◌∷◌, ◌++◌, map, arith, ◌==◌, eq_iff, eq_refl, ltb, leb, eqb, if◌then◌else◌, ltb→lt, lt→ltb,
  leb→le, eqb_iff, Bool-cases, Option-cases, Result, ok, err, Result-cases, length, get_or, all,
  length-append, All, contains,
}
use swosh.Common.Bytes.{Bytes, utf8, utf8_char}
use swosh.Common.Int.{ℤ}
use swosh.Common.Decimal.{itoa}

-- A digit of a `\u` escape, for a value below 16.
unfoldable pub hex_digit : ℕ → ℕ
hex_digit v = if ltb v 10 then b'0' + v else b'a' + (v - 10)

-- A character inside a string: quotes, backslashes, control characters and the two line separators
-- of Unicode are escaped.
unfoldable pub json_char : ℕ → Bytes
unfolding hex_digit utf8_char
json_char c =
    if eqb c 0x22 || eqb c 0x5c
    then 0x5c ∷ c ∷ []
    else if eqb c 0x08
    then 0x5c ∷ b'b' ∷ []
    else if eqb c 0x0c
    then 0x5c ∷ b'f' ∷ []
    else if eqb c 0x0a
    then 0x5c ∷ b'n' ∷ []
    else if eqb c 0x0d
    then 0x5c ∷ b'r' ∷ []
    else if eqb c 0x09
    then 0x5c ∷ b't' ∷ []
    else if ltb c 0x20
    then 0x5c ∷ b'u' ∷ b'0' ∷ b'0' ∷ hex_digit (c / 16) ∷ hex_digit (c % 16) ∷ []
    else if eqb c 0x2028
    then 0x5c ∷ b'u' ∷ b'2' ∷ b'0' ∷ b'2' ∷ b'8' ∷ []
    else if eqb c 0x2029
    then 0x5c ∷ b'u' ∷ b'2' ∷ b'0' ∷ b'2' ∷ b'9' ∷ []
    else utf8_char c

unfoldable pub json_text : String → Bytes
unfolding json_char
json_text String.[] = []
json_text (String.◌∷◌ c s) = json_char (code c) ++ json_text s

-- A string between its quotes.
unfoldable pub json_string : String → Bytes
unfolding json_text
json_string s = 0x22 ∷ (json_text s ++ 0x22 ∷ [])

abbrev pub json_bool : Bool → Bytes
json_bool true = b't' ∷ b'r' ∷ b'u' ∷ b'e' ∷ []
json_bool false = b'f' ∷ b'a' ∷ b'l' ∷ b's' ∷ b'e' ∷ []

unfoldable pub json_int : ℤ → Bytes
unfolding utf8 itoa
json_int n = utf8 (itoa n)

-- The name of a field with the colon behind it.
unfoldable pub json_key : String → Bytes
unfolding json_string
json_key name = json_string name ++ b':' ∷ []

-- `stringValue` and `intValue`, written `{"value":…,"editable":…}`
unfoldable pub json_value : Bytes → Bool → Bytes
unfolding json_key
json_value value editable =
    b'{'
    ∷ (json_key "value"
        ++ (value ++ (b',' ∷ (json_key "editable" ++ (json_bool editable ++ b'}' ∷ [])))))
