-- ===== src/Swish/Uri.antt =====
-- What any decoder finds in the link of internal/swish/swish.go.
use Prim.Native.String
use Prim.Native.String.{String}
use swosh.Common.{
  ℕ, ◌<◌, Char, code, ◌≡◌, refl, ◌⊎◌, inl, inr, Bool, true, false, Option, none, some, [], ◌∷◌,
  ◌++◌, arith, ltb, Bool-cases,
}
use Prim.Native.Char
use Prim.Native.Nat.{compare, Ordering}
use swosh.Common.Bytes.{Bytes, IsBytes, utf8, utf8_char}
use swosh.Common.Text.{every}
use swosh.Common.Decimal.{itoa}
use swosh.Common.Text.Prefix.{cut_prefix, cut_prefix-append}
use swosh.Swish.{Payment, marshal_fields, marshal, uri, replace_plus}
use swosh.Swish.Escape.{escape_bytes}
use swosh.Swish.Escape.Laws.{
  percent_decode, is_query_char, percent_decode-escape_bytes, escape_bytes-every,
}
use swosh.Swish.Json.{
  hex_digit, json_char, json_text, json_string, json_bool, json_int, json_key, json_value,
}
use swosh.Swish.Payload.{Reading, reading_of, read_payload, read_payload-marshal}

IsBytes-append : (xs ys : Bytes) → IsBytes xs → IsBytes ys → IsBytes (xs ++ ys)
IsBytes-append [] ys hx hy = hy
IsBytes-append (x ∷ xs) ys hx hy = (hx.0, IsBytes-append xs ys hx.1 hy)

-- Unicode's bound on code points.
code_bound : (c : Char) → code c < 1_114_112
code_bound (Prim.Native.Char.char n h) = elim (Bool-cases (ltb n 1_114_112)) [
  | inl below ↦ ground arith
  | inr above ↦
      let low : compare n 55_296 ≡ Ordering.gt = ground arith in
      let high : compare 57_343 n ≡ Ordering.lt = ground arith in
      let top : (compare n 1_114_112 ≡ Ordering.eq) ⊎ (compare n 1_114_112 ≡ Ordering.gt) =
        ground arith in
      elim top [ inl e ↦ absurd (rw (low, high, e) at h) | inr g ↦ absurd (rw (low, high, g) at h) ]
]

utf8_char-IsBytes : (c : ℕ) → c < 1_114_112 → IsBytes (utf8_char c)
unfolding utf8_char
utf8_char-IsBytes c h = ground arith

utf8-IsBytes : (s : String) → IsBytes (utf8 s)
unfolding utf8
utf8-IsBytes String.[] = tt
utf8-IsBytes (String.◌∷◌ c s) =
    IsBytes-append (utf8_char (code c)) (utf8 s) (utf8_char-IsBytes (code c) (code_bound c))
      (utf8-IsBytes s)

hex_digit_bound : (v : ℕ) → v < 16 → hex_digit v < 256
unfolding hex_digit
hex_digit_bound v h = ground arith

json_char-IsBytes : (c : ℕ) → c < 1_114_112 → IsBytes (json_char c)
unfolding json_char
json_char-IsBytes c h = ground (arith, utf8_char-IsBytes c h)

json_text-IsBytes : (s : String) → IsBytes (json_text s)
unfolding json_text
json_text-IsBytes String.[] = tt
json_text-IsBytes (String.◌∷◌ c s) =
    IsBytes-append (json_char (code c)) (json_text s) (json_char-IsBytes (code c) (code_bound c))
      (json_text-IsBytes s)

json_string-IsBytes : (s : String) → IsBytes (json_string s)
unfolding json_string
json_string-IsBytes s =
    (ground arith, IsBytes-append (json_text s) (0x22 ∷ []) (json_text-IsBytes s) (ground arith))

json_key-IsBytes : (s : String) → IsBytes (json_key s)
unfolding json_key
json_key-IsBytes s =
    IsBytes-append (json_string s) (b':' ∷ []) (json_string-IsBytes s) (ground arith)

json_bool-IsBytes : (b : Bool) → IsBytes (json_bool b)
json_bool-IsBytes true = ground arith
json_bool-IsBytes false = ground arith

json_value-IsBytes : (v : Bytes) (b : Bool) → IsBytes v → IsBytes (json_value v b)
unfolding json_value
json_value-IsBytes v b h = (
  ground arith,
  IsBytes-append (json_key "value") _ (json_key-IsBytes "value") (
      IsBytes-append v _ h (
        ground arith,
        IsBytes-append (json_key "editable") _ (json_key-IsBytes "editable")
            (IsBytes-append (json_bool b) _ (json_bool-IsBytes b) (ground arith)),
      )),
)

-- A key with its value, and more behind it.
json_field-IsBytes :
    (name : String) (v rest : Bytes)
    → IsBytes v
    → IsBytes rest
    → IsBytes (json_key name ++ (v ++ rest))
json_field-IsBytes name v rest hv hr =
    IsBytes-append (json_key name) (v ++ rest) (json_key-IsBytes name) (IsBytes-append v rest hv hr)

marshal_fields-IsBytes : (p : Payment) → IsBytes (marshal_fields p)
unfolding marshal_fields json_int
marshal_fields-IsBytes p =
    let message : Bytes = json_value (json_string p.message) p.message_editable in
    let last : IsBytes (json_key "message" ++ message) =
      IsBytes-append (json_key "message") message (json_key-IsBytes "message") (
        json_value-IsBytes (json_string p.message) p.message_editable
          (json_string-IsBytes p.message)) in
    let amount : Bytes = json_value (json_int p.amount) p.amount_editable in
    let next : IsBytes (json_key "amount" ++ (amount ++ b',' ∷ (json_key "message" ++ message))) =
      json_field-IsBytes "amount" amount (b',' ∷ (json_key "message" ++ message))
        (json_value-IsBytes (json_int p.amount) p.amount_editable (utf8-IsBytes (itoa p.amount)))
        (ground arith, last) in
    json_field-IsBytes "payee" (json_value (json_string p.payee) p.payee_editable)
      (b',' ∷ (json_key "amount" ++ (amount ++ b',' ∷ (json_key "message" ++ message))))
      (json_value-IsBytes (json_string p.payee) p.payee_editable (json_string-IsBytes p.payee))
      (ground arith, next)

marshal-IsBytes : (p : Payment) → IsBytes (marshal p)
unfolding marshal
marshal-IsBytes p =
    let fields : IsBytes (marshal_fields p ++ b'}' ∷ []) =
      IsBytes-append (marshal_fields p) (b'}' ∷ []) (marshal_fields-IsBytes p) (ground arith) in
    let body : IsBytes (b'1' ∷ b',' ∷ (marshal_fields p ++ b'}' ∷ [])) =
      (ground arith, (ground arith, fields)) in
    (
      ground arith,
      IsBytes-append (json_key "version") (b'1' ∷ b',' ∷ (marshal_fields p ++ b'}' ∷ []))
          (json_key-IsBytes "version") body,
    )

abbrev whole : Option (Reading × Bytes) → Option Reading
whole none = none
whole (some (r, [])) = some r
whole (some (r, b ∷ bs)) = none

abbrev decoded : Option Bytes → Option Reading
decoded none = none
decoded (some bs) = whole (read_payload bs)

abbrev of_data : Option String → Option Reading
of_data none = none
of_data (some data_text) = decoded (percent_decode data_text)

-- How an app may read a link: the data behind the prefix, decoded by RFC 3986, as one JSON object
-- with nothing behind it.
unfoldable pub read_uri : String → Option Reading
unfolding percent_decode read_payload cut_prefix
read_uri u = of_data (cut_prefix u "swish://payment?data=")

-- An app that takes the data of the link that `URI` makes behind the prefix, decodes it as RFC
-- 3986 says and reads it as one JSON object gets the payee, the amount and the message of the
-- payment, with their flags, and version 1.
pub read_uri-uri : (p : Payment) → read_uri (uri p) ≡ some (reading_of p)
unfolding read_uri uri
read_uri-uri p =
    rw (cut_prefix-append "swish://payment?data=" (replace_plus (escape_bytes (marshal p)))) (
      rw (percent_decode-escape_bytes (marshal p) (marshal-IsBytes p))
        (rw (read_payload-marshal p) refl))

-- The link that `URI` makes is the prefix followed by letters, digits, the signs - _ . ~ and %
-- alone.
pub uri-every :
    (p : Payment)
    → (data_text : String) × (uri p ≡ String.◌++◌ "swish://payment?data=" data_text)
      × (every is_query_char data_text ≡ true)
unfolding uri
uri-every p = (
  replace_plus (escape_bytes (marshal p)),
  refl,
  escape_bytes-every (marshal p) (marshal-IsBytes p),
)
