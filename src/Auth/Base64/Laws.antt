-- ===== src/Auth/Base64/Laws.antt =====
-- The base64 texts of internal/auth/session.go are read back, and hold no full stop.
use Prim.Native.String.{String}
use swosh.Common.Text.{char_of}
use swosh.Common.{
  holds_to, holds_at, ℕ, ◌<◌, code, ◌≡◌, refl, Bool, true, false, not, ◌&&◌, ◌||◌, Option, none,
  some, List, [], ◌∷◌, arith, eqb,
}
use swosh.Common.Bytes.{Bytes, IsBytes}
use swosh.Auth.Base64.{alphabet, value_of, sextets, bytes_of, text_of, values_of, encode, decode}

abbrev IsSextets : List ℕ → Type 0
IsSextets [] = Unit
IsSextets (v ∷ vs) = (v < 64) × IsSextets vs

is_value : ℕ → Option ℕ → Bool
is_value n none = false
is_value n (some v) = eqb v n

is_value_sound : (o : Option ℕ) (v : ℕ) → is_value v o ≡ true → o ≡ some v
unfolding is_value
is_value_sound none v h = cc
is_value_sound (some u) v h = ground arith

abbrev is_faithful : ℕ → Bool
is_faithful v =
    let c = code (char_of alphabet v) in
    is_value v (value_of c) && not (eqb c 0x0a) && not (eqb c 0x0d) && not (eqb c b'.')

alphabet_table : holds_to is_faithful 64 ≡ true
unfolding char_of value_of is_value
alphabet_table = refl

sextets-IsSextets : (bs : Bytes) → IsBytes bs → IsSextets (sextets bs)
unfolding sextets
sextets-IsSextets [] h = tt
sextets-IsSextets (a ∷ []) h = omega arith
sextets-IsSextets (a ∷ b ∷ []) h = omega arith
sextets-IsSextets (a ∷ b ∷ c ∷ rest) h =
    (omega arith, (omega arith, (omega arith, (omega arith, sextets-IsSextets rest h.1.1.1))))

bytes_of-sextets : (bs : Bytes) → IsBytes bs → bytes_of (sextets bs) ≡ some bs
unfolding bytes_of sextets
bytes_of-sextets [] h = refl
bytes_of-sextets (a ∷ []) h = ground arith
bytes_of-sextets (a ∷ b ∷ []) h = ground arith
bytes_of-sextets (a ∷ b ∷ c ∷ rest) h = ground (arith, bytes_of-sextets rest h.1.1.1)

-- What the table says of one value.
char_facts :
    (v : ℕ)
    → v < 64
    → (value_of (code (char_of alphabet v)) ≡ some v)
      × (eqb (code (char_of alphabet v)) 0x0a ≡ false)
      × (eqb (code (char_of alphabet v)) 0x0d ≡ false)
      × (eqb (code (char_of alphabet v)) b'.' ≡ false)
char_facts v h = of_test (code (char_of alphabet v)) (holds_at is_faithful v 64 h alphabet_table)
  where
    of_test :
        (c : ℕ)
        → is_value v (value_of c) && not (eqb c 0x0a) && not (eqb c 0x0d) && not (eqb c b'.') ≡ true
        → (value_of c ≡ some v) × (eqb c 0x0a ≡ false) × (eqb c 0x0d ≡ false) × (eqb c b'.' ≡ false)
    of_test c t = ground (arith, is_value_sound (value_of c) v)

values_of-text_of : (vs : List ℕ) → IsSextets vs → values_of (text_of vs) ≡ some vs
unfolding values_of text_of
values_of-text_of [] h = refl
values_of-text_of (v ∷ vs) h =
    let (value, lf, cr, dot) = char_facts v h.0 in
    rw (lf, cr) (rw value (rw (values_of-text_of vs h.1)))

-- Decoding gives back the bytes that base64 has encoded, for every list of numbers below 256.
pub decode-encode : (bs : Bytes) → IsBytes bs → decode (encode bs) ≡ some bs
unfolding decode encode
decode-encode bs h =
    rw (decode, values_of-text_of (sextets bs) (sextets-IsSextets bs h)) (bytes_of-sextets bs h)

abbrev pub has_dot : String → Bool
has_dot String.[] = false
has_dot (String.◌∷◌ c s) = eqb (code c) b'.' || has_dot s

no_dot : (vs : List ℕ) → IsSextets vs → has_dot (text_of vs) ≡ false
unfolding text_of
no_dot [] h = refl
no_dot (v ∷ vs) h = let (value, lf, cr, dot) = char_facts v h.0 in rw dot (no_dot vs h.1)

pub encode-no_dot : (bs : Bytes) → IsBytes bs → has_dot (encode bs) ≡ false
unfolding encode
encode-no_dot bs h = no_dot (sextets bs) (sextets-IsSextets bs h)
