-- ===== src/Common/Decimal.antt =====
-- `strconv.ParseInt` and `strconv.Itoa` in base 10.
use Prim.Native.Char.{Char, code}
use Prim.Native.Nat.{ℕ, zero, suc, ◌+◌, ◌-◌, ◌*◌, ◌/◌, ◌%◌, ◌^◌, ◌<◌}
use Prim.Native.String.{String, [], ◌∷◌}
use mathlib.Core.Path.{◌≡◌, refl, sym, ap, ◌∙◌}
use mathlib.Core.Logic.{inl, inr}
use mathlib.Core.Bool.{Bool, true, false, ◌&&◌}
use mathlib.Core.Option.{Option, none, some}
use native.Mathlib.Omega.{arith}
use swosh.Common.Tests.{ltb, leb, eqb, if◌then◌else◌, ltb→lt, Bool-cases}
use swosh.Common.Int.{ℤ, pos, negsuc}
use swosh.Common.Text.{every}

abbrev pub is_digit : ℕ → Bool
is_digit c = leb b'0' c && leb c b'9'

-- The digits behind those that have made `acc`.
unfoldable pub digits_from : ℕ → String → Option ℕ
digits_from acc [] = some acc
digits_from acc (c ∷ s) =
    let rest = digits_from (acc * 10 + (code c - b'0')) s in
    if is_digit (code c) then rest else none

-- `ParseUint`: at least one digit, and nothing else.
unfoldable pub parse_digits : String → Option ℕ
unfolding digits_from
parse_digits [] = none
parse_digits (c ∷ s) = digits_from 0 (c ∷ s)

-- A magnitude with its sign, if it fits a signed integer of `bits + 1` bits.
abbrev pub signed_in : ℕ → Bool → Option ℕ → Option ℤ
signed_in bits neg none = none
signed_in bits false (some n) = if ltb n (2 ^ bits) then some (pos n) else none
signed_in bits true (some zero) = some (pos 0)
signed_in bits true (some (suc n)) = if ltb n (2 ^ bits) then some (negsuc n) else none

-- `strconv.ParseInt(s, 10, bits + 1)`
unfoldable pub parse_int : ℕ → String → Option ℤ
unfolding parse_digits
parse_int bits [] = none
parse_int bits (c ∷ s) =
    if eqb (code c) b'-'
    then signed_in bits true (parse_digits s)
    else signed_in bits false (parse_digits (if eqb (code c) b'+' then s else c ∷ s))

unfoldable pub digit : ℕ → Char
digit zero = "0"
digit (suc zero) = "1"
digit (suc (suc zero)) = "2"
digit (suc (suc (suc zero))) = "3"
digit (suc (suc (suc (suc zero)))) = "4"
digit (suc (suc (suc (suc (suc zero))))) = "5"
digit (suc (suc (suc (suc (suc (suc zero)))))) = "6"
digit (suc (suc (suc (suc (suc (suc (suc zero))))))) = "7"
digit (suc (suc (suc (suc (suc (suc (suc (suc zero)))))))) = "8"
digit _ = "9"

-- The digits of a number in front of a text; the fuel is one for each digit.
unfoldable pub decimal : ℕ → ℕ → String → String
decimal zero n s = s
decimal (suc fuel) n s =
    let shorter = decimal fuel (n / 10) (digit (n % 10) ∷ s) in
    if ltb n 10 then digit n ∷ s else shorter

unfoldable pub itoa : ℤ → String
unfolding decimal
itoa (pos n) = decimal (suc n) n ""
itoa (negsuc n) = "-" ∷ decimal (suc (suc n)) (suc n) ""

pub code-digit : (d : ℕ) → d < 10 → code (digit d) ≡ b'0' + d
unfolding digit
code-digit zero h = refl
code-digit (suc zero) h = refl
code-digit (suc (suc zero)) h = refl
code-digit (suc (suc (suc zero))) h = refl
code-digit (suc (suc (suc (suc zero)))) h = refl
code-digit (suc (suc (suc (suc (suc zero))))) h = refl
code-digit (suc (suc (suc (suc (suc (suc zero)))))) h = refl
code-digit (suc (suc (suc (suc (suc (suc (suc zero))))))) h = refl
code-digit (suc (suc (suc (suc (suc (suc (suc (suc zero)))))))) h = refl
code-digit (suc (suc (suc (suc (suc (suc (suc (suc (suc zero))))))))) h = refl
code-digit d h = absurd (omega arith)

is_digit-digit : (d : ℕ) → d < 10 → is_digit (b'0' + d) ≡ true
is_digit-digit d h = ground arith

digits_from-digit :
    (acc d : ℕ) (s : String) → d < 10 → digits_from acc (digit d ∷ s) ≡ digits_from (acc * 10 + d) s
unfolding digits_from
digits_from-digit acc d s h =
    rw (code-digit d h)
      (rw (is_digit-digit d h) (ap (λ e. digits_from (acc * 10 + e) s) (omega arith)))

digits_from-decimal :
    (fuel n : ℕ) (s : String) → n < fuel → digits_from 0 (decimal fuel n s) ≡ digits_from n s
unfolding decimal
digits_from-decimal zero n s h = elim h [ ]
digits_from-decimal (suc fuel) n s h = elim (Bool-cases (ltb n 10)) [
  | inl last ↦
      rw last (digits_from-digit 0 n s (ltb→lt _ _ last) ∙ ap (λ m. digits_from m s) (omega arith))
  | inr more ↦ rw more (
      digits_from-decimal fuel (n / 10) (digit (n % 10) ∷ s) (ground arith)
      ∙ digits_from-digit (n / 10) (n % 10) s (omega arith)
      ∙ ap (λ m. digits_from m s) (omega arith))
]

-- The text of a number begins with a digit.
decimal_head :
    (fuel n : ℕ) (s : String)
    → (d : ℕ) × (t : String) × (d < 10) × (decimal (suc fuel) n s ≡ digit d ∷ t)
unfolding decimal
decimal_head zero n s = elim (Bool-cases (ltb n 10)) [
  | inl last ↦ (n, s, ltb→lt _ _ last, rw last refl)
  | inr more ↦ (n % 10, s, omega arith, rw more refl)
]
decimal_head (suc fuel) n s = elim (Bool-cases (ltb n 10)) [
  | inl last ↦ (n, s, ltb→lt _ _ last, rw last refl)
  | inr more ↦
      let (d, t, h, e) = decimal_head fuel (n / 10) (digit (n % 10) ∷ s) in (d, t, h, rw more e)
]

parse_digits-decimal : (fuel n : ℕ) → n < suc fuel → parse_digits (decimal (suc fuel) n "") ≡ some n
unfolding parse_digits
parse_digits-decimal fuel n h =
    let (d, t, small, e) = decimal_head fuel n "" in
    rw e (ap (digits_from 0) (sym e) ∙ digits_from-decimal (suc fuel) n "" h)

is_sign-digit :
    (d : ℕ) → d < 10 → (eqb (code (digit d)) b'-' ≡ false) × (eqb (code (digit d)) b'+' ≡ false)
is_sign-digit d h = rw (code-digit d h) (ground arith, ground arith)

-- An integer of `bits + 1` bits is read back from its text.
pub parse_int-itoa_pos : (bits n : ℕ) → n < 2 ^ bits → parse_int bits (itoa (pos n)) ≡ some (pos n)
unfolding parse_int itoa
parse_int-itoa_pos bits n h =
    let (d, t, small, e) = decimal_head n n "" in
    let (minus, plus) = is_sign-digit d small in
    let read = ap parse_digits (sym e) ∙ parse_digits-decimal n n (omega arith) in
    rw e (rw (minus, plus) (rw read (ground arith)))

pub parse_int-itoa_negsuc :
    (bits n : ℕ) → n < 2 ^ bits → parse_int bits (itoa (negsuc n)) ≡ some (negsuc n)
unfolding parse_int itoa
parse_int-itoa_negsuc bits n h =
    rw (parse_digits-decimal (suc n) (suc n) (omega arith)) (ground arith)

pow2_pos : (n : ℕ) → 0 < 2 ^ n
pow2_pos zero = ground arith
pow2_pos (suc n) = ground (arith, pow2_pos n)

signed_in-bound :
    (bits : ℕ) (neg : Bool) (o : Option ℕ) (n : ℕ)
    → signed_in bits neg o ≡ some (pos n)
    → n < 2 ^ bits
signed_in-bound bits neg none n h = ground arith
signed_in-bound bits false (some m) n h = ground arith
signed_in-bound bits true (some zero) n h = ground (arith, pow2_pos bits)
signed_in-bound bits true (some (suc m)) n h = ground arith

-- What is read fits the width.
pub parse_int-bound :
    (bits : ℕ) (s : String) (n : ℕ) → parse_int bits s ≡ some (pos n) → n < 2 ^ bits
unfolding parse_int
parse_int-bound bits [] n h = ground arith
parse_int-bound bits (c ∷ s) n h = elim (Bool-cases (eqb (code c) b'-')) [
  | inl minus ↦ signed_in-bound bits true (parse_digits s) n (rw minus at h)
  | inr other ↦ signed_in-bound bits false _ n (rw other at h)
]

every-decimal :
    (fuel n : ℕ) (s : String) → every is_digit s ≡ true → every is_digit (decimal fuel n s) ≡ true
unfolding decimal
every-decimal zero n s h = h
every-decimal (suc fuel) n s h = elim (Bool-cases (ltb n 10)) [
  | inl last ↦
      rw last (rw (code-digit n (ltb→lt _ _ last)) (rw (is_digit-digit n (ltb→lt _ _ last)) h))
  | inr more ↦ rw more (
      every-decimal fuel (n / 10) _
        (rw (code-digit (n % 10) (omega arith)) (rw (is_digit-digit (n % 10) (omega arith)) h)))
]

-- The text of a number that is not negative has digits only.
pub every-itoa : (n : ℕ) → every is_digit (itoa (pos n)) ≡ true
unfolding itoa
every-itoa n = every-decimal (suc n) n "" refl
