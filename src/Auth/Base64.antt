-- ===== src/Auth/Base64.antt =====
-- `base64.RawURLEncoding`, which internal/auth/session.go uses for cookies and tokens.
pub mod Laws
use Prim.Native.String.{String}
use swosh.Common.Text.{char_of}
use swosh.Common.{
  ℕ, zero, suc, ◌+◌, ◌-◌, ◌*◌, ◌/◌, ◌%◌, ◌^◌, ◌≤◌, ◌<◌, Char, code, len, ◌≡◌, refl, sym, ap, ◌∙◌,
  subst, ◌≢◌, ◌↔◌, ◌⊎◌, inl, inr, Bool, true, false, not, ◌&&◌, ◌||◌, Option, none, some, List, [],
  ◌∷◌, ◌++◌, map, arith, ◌==◌, eq_iff, eq_refl, ltb, leb, eqb, if◌then◌else◌, ltb→lt, lt→ltb,
  leb→le, eqb_iff, Bool-cases, Option-cases, Result, ok, err, Result-cases, length, get_or, all,
  length-append, All, contains,
}
use swosh.Common.Bytes.{Bytes, IsBytes}

abbrev pub alphabet : String
alphabet = "ABCDEFGHIJKLMNOPQRSTUVWXYZabcdefghijklmnopqrstuvwxyz0123456789-_"

unfoldable pub value_of : ℕ → Option ℕ
value_of c =
    if leb b'A' c && leb c b'Z'
    then some (c - b'A')
    else if leb b'a' c && leb c b'z'
    then some (c - b'a' + 26)
    else if leb b'0' c && leb c b'9'
    then some (c - b'0' + 52)
    else if eqb c b'-'
    then some 62
    else if eqb c b'_'
    then some 63
    else none

-- The six-bit values of a run of bytes; one or two bytes at the end are padded with zero bits.
unfoldable pub sextets : Bytes → List ℕ
sextets [] = []
sextets (a ∷ []) = (a / 4) ∷ (a % 4 * 16) ∷ []
sextets (a ∷ b ∷ []) = (a / 4) ∷ (a % 4 * 16 + b / 16) ∷ (b % 16 * 4) ∷ []
sextets (a ∷ b ∷ c ∷ rest) =
    (a / 4) ∷ (a % 4 * 16 + b / 16) ∷ (b % 16 * 4 + c / 64) ∷ (c % 64) ∷ sextets rest

abbrev pub and_then {ℓ κ} : {A : Type ℓ} {B : Type κ} → (A → B) → Option A → Option B
and_then f none = none
and_then f (some a) = some (f a)

-- The bytes of a run of six-bit values. Spare bits at the end are dropped, as the decoder is not
-- strict; a single value at the end is an error.
unfoldable pub bytes_of : List ℕ → Option Bytes
bytes_of [] = some []
bytes_of (a ∷ []) = none
bytes_of (a ∷ b ∷ []) = some ((a * 4 + b / 16) ∷ [])
bytes_of (a ∷ b ∷ c ∷ []) = some ((a * 4 + b / 16) ∷ (b % 16 * 16 + c / 4) ∷ [])
bytes_of (a ∷ b ∷ c ∷ d ∷ rest) =
    and_then (λ bs. (a * 4 + b / 16) ∷ (b % 16 * 16 + c / 4) ∷ (c % 4 * 64 + d) ∷ bs)
      (bytes_of rest)

unfoldable pub text_of : List ℕ → String
unfolding char_of
text_of [] = ""
text_of (v ∷ vs) = String.◌∷◌ (char_of alphabet v) (text_of vs)

-- The values of a text; the decoder skips line breaks.
unfoldable pub values_of : String → Option (List ℕ)
unfolding value_of
values_of String.[] = some []
values_of (String.◌∷◌ c s) =
    let rest = values_of s in
    if eqb (code c) 0x0a || eqb (code c) 0x0d
    then rest
    else elim (value_of (code c)) [ none ↦ none | some v ↦ and_then (λ vs. v ∷ vs) rest ]

-- `EncodeToString`
unfoldable pub encode : Bytes → String
unfolding text_of sextets
encode bs = text_of (sextets bs)

-- `DecodeString`
unfoldable pub decode : String → Option Bytes
unfolding values_of bytes_of
decode s = elim (values_of s) [ none ↦ none | some vs ↦ bytes_of vs ]
