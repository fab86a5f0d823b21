-- ===== src/Swish/Escape.antt =====
-- `url.QueryEscape`, with which internal/swish and internal/web/authn.go write a text into a URL.
pub mod Laws
use Prim.Native.String.{String}
use swosh.Common.Text.{char_of}
use swosh.Common.{
  ℕ, zero, suc, ◌+◌, ◌-◌, ◌*◌, ◌/◌, ◌%◌, ◌^◌, ◌≤◌, ◌<◌, Char, code, len, ◌≡◌, refl, sym, ap, ◌∙◌,
  subst, ◌≢◌, ◌↔◌, ◌⊎◌, inl, inr, Bool, true, false, not, ◌&&◌, ◌||◌, Option, none, some, List, [],
  ◌∷◌, ◌++◌, map, arith, ◌==◌, eq_iff, eq_refl, ltb, leb, eqb, if◌then◌else◌, ltb→lt, lt→ltb,
  leb→le, eqb_iff, Bool-cases, Option-cases, Result, ok, err, Result-cases, length, get_or, all,
  length-append, All, contains,
}
use swosh.Common.Bytes.{Bytes, utf8}
use swosh.Common.Decimal.{is_digit}

-- Letters, digits, - _ . and ~ stay as they are.
abbrev pub is_unreserved : ℕ → Bool
is_unreserved b =
    leb b'A' b && leb b b'Z'
    || leb b'a' b && leb b b'z'
    || is_digit b
    || eqb b b'-'
    || eqb b b'_'
    || eqb b b'.'
    || eqb b b'~'

abbrev pub upper_hex : String
upper_hex = "0123456789ABCDEF"

abbrev pub ascii : String
ascii =
    " !\"#$%&'()*+,-./0123456789:;<=>?@ABCDEFGHIJKLMNOPQRSTUVWXYZ[\\]^_`abcdefghijklmnopqrstuvwxyz{|}~"

-- The bytes of a text in a query: a space is a plus, and other bytes are written in hexadecimal.
unfoldable pub escape_bytes : Bytes → String
unfolding char_of
escape_bytes [] = ""
escape_bytes (b ∷ bs) =
    let rest = escape_bytes bs in
    if is_unreserved b
    then String.◌∷◌ (char_of ascii (b - 0x20)) rest
    else if eqb b 0x20
    then String.◌∷◌ "+" rest
    else String.◌∷◌ "%"
        (String.◌∷◌ (char_of upper_hex (b / 16)) (String.◌∷◌ (char_of upper_hex (b % 16)) rest))

unfoldable pub query_escape : String → String
unfolding escape_bytes utf8
query_escape s = escape_bytes (utf8 s)
