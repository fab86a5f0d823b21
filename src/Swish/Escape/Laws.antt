-- ===== src/Swish/Escape/Laws.antt =====
-- A text in a link of internal/swish is read back by any decoder, and cannot be misread.
use Prim.Native.String
use Prim.Native.String.{String}
use swosh.Common.{
  holds_to, holds_at, ℕ, ◌+◌, ◌-◌, ◌*◌, ◌/◌, ◌%◌, ◌<◌, Char, code, ◌≡◌, refl, ap, ◌∙◌, inl, inr,
  Bool, true, false, not, ◌&&◌, ◌||◌, Option, none, some, [], ◌∷◌, arith, leb, eqb, if◌then◌else◌,
  Bool-cases,
}
use swosh.Common.Bytes.{Bytes, IsBytes}
use swosh.Common.Text.{char_of, every}
use swosh.Swish.Escape.{is_unreserved, upper_hex, ascii, escape_bytes}
use swosh.Swish.{replace_plus}
use text.Mathlib.TextLemmas.{nil-append, cons-append}

-- The value of a hexadecimal digit.
abbrev pub hex_value : ℕ → Option ℕ
hex_value c =
    if leb b'0' c && leb c b'9'
    then some (c - b'0')
    else if leb b'A' c && leb c b'F'
    then some (c - b'A' + 10)
    else if leb b'a' c && leb c b'f'
    then some (c - b'a' + 10)
    else none

abbrev pub two_digits : Option ℕ → Option ℕ → Option Bytes → Option Bytes
two_digits (some h) (some l) (some bs) = some ((h * 16 + l) ∷ bs)
two_digits h l bs = none

abbrev pub one_byte : ℕ → Option Bytes → Option Bytes
one_byte b none = none
one_byte b (some bs) = some (b ∷ bs)

-- Percent-decoding as RFC 3986 has it, in which a plus stands for itself. `none` is an escape
-- that is cut off or has no two digits.
unfoldable pub percent_decode : String → Option Bytes
percent_decode String.[] = some []
percent_decode (String.◌∷◌ c String.[]) = if eqb (code c) b'%' then none else some (code c ∷ [])
percent_decode (String.◌∷◌ c (String.◌∷◌ d String.[])) =
    if eqb (code c) b'%' then none else one_byte (code c) (percent_decode (String.◌∷◌ d String.[]))
percent_decode (String.◌∷◌ c (String.◌∷◌ d (String.◌∷◌ e s))) =
    let short = percent_decode s in
    let long = percent_decode (String.◌∷◌ d (String.◌∷◌ e s)) in
    if eqb (code c) b'%'
    then two_digits (hex_value (code d)) (hex_value (code e)) short
    else one_byte (code c) long

percent_decode-plain :
    (c : Char) (s : String)
    → eqb (code c) b'%' ≡ false
    → percent_decode (String.◌∷◌ c s) ≡ one_byte (code c) (percent_decode s)
unfolding percent_decode
percent_decode-plain c String.[] h = rw h refl
percent_decode-plain c (String.◌∷◌ d String.[]) h = rw h refl
percent_decode-plain c (String.◌∷◌ d (String.◌∷◌ e s)) h = rw h refl

abbrev is_kept : ℕ → Bool
is_kept b = not (is_unreserved b) || eqb (code (char_of ascii (b - 0x20))) b

kept_table : holds_to is_kept 256 ≡ true
unfolding char_of
kept_table = refl

kept : (b : ℕ) → b < 256 → is_unreserved b ≡ true → code (char_of ascii (b - 0x20)) ≡ b
kept b lt h = let t = holds_at is_kept b 256 lt kept_table in ground arith

is_digit_of : ℕ → Option ℕ → Bool
is_digit_of v none = false
is_digit_of v (some u) = eqb u v

is_digit_of_sound : (v : ℕ) (o : Option ℕ) → is_digit_of v o ≡ true → o ≡ some v
unfolding is_digit_of
is_digit_of_sound v none h = cc
is_digit_of_sound v (some u) h = ground arith

abbrev is_hex_at : ℕ → Bool
is_hex_at v =
    let c = code (char_of upper_hex v) in
    is_digit_of v (hex_value c) && (is_unreserved c && not (eqb c b'+'))

hex_table : holds_to is_hex_at 16 ≡ true
unfolding char_of is_digit_of
hex_table = refl

hex_facts :
    (v : ℕ)
    → v < 16
    → (hex_value (code (char_of upper_hex v)) ≡ some v)
      × (is_unreserved (code (char_of upper_hex v)) ≡ true)
      × (eqb (code (char_of upper_hex v)) b'+' ≡ false)
hex_facts v lt = of_test (code (char_of upper_hex v)) (holds_at is_hex_at v 16 lt hex_table)
  where
    parts :
        (o : Option ℕ) (u p : Bool)
        → is_digit_of v o && (u && not p) ≡ true
        → (o ≡ some v) × (u ≡ true) × (p ≡ false)
    parts o true true h = ground arith
    parts o false p h = ground arith
    parts o true false h = (is_digit_of_sound v o (ground arith), refl, refl)

    of_test :
        (c : ℕ)
        → is_digit_of v (hex_value c) && (is_unreserved c && not (eqb c b'+')) ≡ true
        → (hex_value c ≡ some v) × (is_unreserved c ≡ true) × (eqb c b'+' ≡ false)
    of_test c t = parts (hex_value c) (is_unreserved c) (eqb c b'+') t

-- The characters of a URL's query that no reader takes for anything else.
abbrev pub is_query_char : ℕ → Bool
is_query_char c = is_unreserved c || eqb c b'%'

unreserved_plain : (b : ℕ) → is_unreserved b ≡ true → (eqb b b'+' ≡ false) × (eqb b b'%' ≡ false)
unreserved_plain b h = ground arith

-- What a byte becomes in a link, in front of the rest.
abbrev escaped : ℕ → String → String
escaped b rest =
    if is_unreserved b
    then String.◌∷◌ (char_of ascii (b - 0x20)) rest
    else if eqb b 0x20
    then String.◌∷◌ "%" (String.◌∷◌ "2" (String.◌∷◌ "0" rest))
    else String.◌∷◌ "%"
        (String.◌∷◌ (char_of upper_hex (b / 16)) (String.◌∷◌ (char_of upper_hex (b % 16)) rest))

twenty : (s : String) → String.◌++◌ "%20" s ≡ String.◌∷◌ "%" (String.◌∷◌ "2" (String.◌∷◌ "0" s))
twenty s = rw cons-append (rw cons-append (rw cons-append (rw nil-append refl)))

replace_plus-escape_bytes :
    (b : ℕ) (bs : Bytes)
    → b < 256
    → replace_plus (escape_bytes (b ∷ bs)) ≡ escaped b (replace_plus (escape_bytes bs))
unfolding replace_plus escape_bytes
replace_plus-escape_bytes b bs lt = elim (Bool-cases (is_unreserved b)) [
  | inl plain ↦ rw plain (rw (kept b lt plain, replace_plus) (rw (unreserved_plain b plain).0 refl))
  | inr other ↦ rw other (elim (Bool-cases (eqb b 0x20)) [
    | inl space ↦ rw space (twenty (replace_plus (escape_bytes bs)))
    | inr coded ↦
        let (hv, hu, hp) = hex_facts (b / 16) (omega arith) in
        let (lv, lu, lp) = hex_facts (b % 16) (omega arith) in rw coded (rw hp (rw lp refl))
  ])
]

-- Decoding as RFC 3986 says gives back the bytes that are escaped.
pub percent_decode-escape_bytes :
    (bs : Bytes) → IsBytes bs → percent_decode (replace_plus (escape_bytes bs)) ≡ some bs
unfolding percent_decode replace_plus escape_bytes
percent_decode-escape_bytes [] h = refl
percent_decode-escape_bytes (b ∷ bs) h =
    ap percent_decode (replace_plus-escape_bytes b bs h.0)
    ∙ decodes (replace_plus (escape_bytes bs)) (percent_decode-escape_bytes bs h.1)
  where
    decodes :
        (rest : String)
        → percent_decode rest ≡ some bs
        → percent_decode (escaped b rest) ≡ some (b ∷ bs)
    decodes rest ih = elim (Bool-cases (is_unreserved b)) [
      | inl plain ↦
          let same = kept b h.0 plain in
          rw plain (
            percent_decode-plain (char_of ascii (b - 0x20)) rest
              (rw same (unreserved_plain b plain).1)
            ∙ (rw (same, ih) refl))
      | inr other ↦ rw other (elim (Bool-cases (eqb b 0x20)) [
        | inl space ↦
            let blank : 32 ≡ b = ground arith in
            rw space (rw (percent_decode, ih) (ap (λ x. some (x ∷ bs)) blank))
        | inr coded ↦
            let (hv, hu, hp) = hex_facts (b / 16) (omega arith) in
            let (lv, lu, lp) = hex_facts (b % 16) (omega arith) in
            rw coded (rw (percent_decode, hv, lv, ih) (ap (λ x. some (x ∷ bs)) (omega arith)))
      ])
    ]

-- The escaped text has letters, digits, the signs - _ . ~ and % alone.
pub escape_bytes-every :
    (bs : Bytes) → IsBytes bs → every is_query_char (replace_plus (escape_bytes bs)) ≡ true
unfolding replace_plus escape_bytes
escape_bytes-every [] h = refl
escape_bytes-every (b ∷ bs) h =
    ap (every is_query_char) (replace_plus-escape_bytes b bs h.0)
    ∙ safe (replace_plus (escape_bytes bs)) (escape_bytes-every bs h.1)
  where
    safe :
        (rest : String)
        → every is_query_char rest ≡ true
        → every is_query_char (escaped b rest) ≡ true
    safe rest ih = elim (Bool-cases (is_unreserved b)) [
      | inl plain ↦ rw plain (rw (kept b h.0 plain, plain, ih) refl)
      | inr other ↦ rw other (elim (Bool-cases (eqb b 0x20)) [
        | inl space ↦ rw space (rw ih refl)
        | inr coded ↦
            let (hv, hu, hp) = hex_facts (b / 16) (omega arith) in
            let (lv, lu, lp) = hex_facts (b % 16) (omega arith) in rw coded (rw (hu, lu, ih) refl)
      ])
    ]
