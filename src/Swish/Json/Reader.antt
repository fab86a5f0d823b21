-- ===== src/Swish/Json/Reader.antt =====
-- A reader of the JSON that internal/swish writes, after RFC 8259.
use swosh.Common.{
  ℕ, suc, ◌+◌, ◌*◌, Bool, true, false, Option, none, some, [], ◌∷◌, ◌++◌, eqb, if◌then◌else◌,
}
use swosh.Common.Bytes.{Bytes, utf8_char}
use swosh.Swish.Json.{json_bool}
use swosh.Swish.Escape.Laws.{hex_value}

-- A reader takes what it reads off the front of the bytes.
abbrev pub Reader : Type 0 → Type 0
Reader A = Bytes → Option (A × Bytes)

abbrev then_read : {A B : Type 0} → (A → Reader B) → Option (A × Bytes) → Option (B × Bytes)
then_read k none = none
then_read k (some (a, bs)) = k a bs

infixl 5 ◌>>=◌ ◌>>◌
unfoldable pub ◌>>=◌ : {A B : Type 0} → Reader A → (A → Reader B) → Reader B
(r >>= k) bs = then_read k (r bs)

abbrev pub ◌>>◌ : {A B : Type 0} → Reader A → Reader B → Reader B
r >> k = r >>= λ _. k

abbrev pub pure : {A : Type 0} → A → Reader A
pure a bs = some (a, bs)

unfoldable pub expect : Bytes → Reader (Unit {0})
expect [] bs = some (tt, bs)
expect (p ∷ ps) [] = none
expect (p ∷ ps) (b ∷ bs) = let rest = expect ps bs in if eqb p b then rest else none

-- Where a reader stands inside a string: between characters, behind a backslash, or behind some
-- digits of a `\u` escape with their value.
pub data Mode : Type 0 where
  plain escape : Mode
  hex : ℕ → ℕ → Mode

abbrev pub push : Bytes → Option (Bytes × Bytes) → Option (Bytes × Bytes)
push p none = none
push p (some (s, rest)) = some (p ++ s, rest)

abbrev pub short_value : ℕ → ℕ
short_value e =
    if eqb e b'b'
    then 0x08
    else if eqb e b'f'
    then 0x0c
    else if eqb e b'n'
    then 0x0a
    else if eqb e b'r'
    then 0x0d
    else if eqb e b't'
    then 0x09
    else e

-- The bytes of a string up to its closing quote.
unfoldable pub read_text : Mode → Reader Bytes
unfolding utf8_char
read_text mode [] = none
read_text plain (b ∷ bs) =
    let next = push (b ∷ []) (read_text plain bs) in
    let escaped = read_text escape bs in
    if eqb b 0x22 then some ([], bs) else if eqb b 0x5c then escaped else next
read_text escape (b ∷ bs) =
    let next = push (short_value b ∷ []) (read_text plain bs) in
    let digits = read_text (hex 0 0) bs in if eqb b b'u' then digits else next
read_text (hex k v) (b ∷ bs) =
    let d = get_value (hex_value b) in
    let next = read_text (hex (suc k) (v * 16 + d)) bs in
    let last = push (utf8_char (v * 16 + d)) (read_text plain bs) in
    if is_none (hex_value b) then none else if eqb k 3 then last else next
  where
    get_value : Option ℕ → ℕ
    get_value none = 0
    get_value (some d) = d

    is_none : Option ℕ → Bool
    is_none none = true
    is_none (some d) = false

abbrev pub text : Reader Bytes
text = expect (0x22 ∷ []) >> read_text plain

-- The bytes up to a comma, which is read too.
unfoldable pub to_comma : Reader Bytes
to_comma [] = none
to_comma (b ∷ bs) =
    let next = push (b ∷ []) (to_comma bs) in if eqb b b',' then some ([], bs) else next

abbrev or_false : Option ((Unit {0}) × Bytes) → Option (Bool × Bytes) → Option (Bool × Bytes)
or_false none other = other
or_false (some (u, bs)) other = some (true, bs)

unfoldable pub flag : Reader Bool
unfolding expect
flag bs = or_false (expect (json_bool true) bs) ((expect (json_bool false) >>= λ _. pure false) bs)
