-- ===== src/Swish/Json/Laws.antt =====
-- What is written as JSON is read back.
use Prim.Native.String.{String}
use swosh.Common.{
  ℕ, zero, suc, ◌+◌, ◌*◌, ◌/◌, ◌%◌, ◌<◌, code, ◌≡◌, refl, sym, ap, ◌∙◌, subst, inl, inr, Bool, true,
  false, Option, none, some, [], ◌∷◌, ◌++◌, arith, ltb, eqb, lt→ltb, Bool-cases, All,
}
use swosh.Common.{holds_to, holds_at}
use swosh.Common.Bytes.{Bytes, utf8, utf8_char}
use swosh.Common.Int.{ℤ, pos, negsuc}
use swosh.Common.Decimal.{digit, decimal, itoa, code-digit}
use swosh.Swish.Json.{hex_digit, json_char, json_text, json_string, json_bool, json_int}
use swosh.Swish.Escape.Laws.{hex_value}
use swosh.Swish.Json.Reader.{
  Reader, ◌>>=◌, pure, expect, plain, push, read_text, text, to_comma, flag,
}
use mathlib.Core.List.{append_assoc}

-- A reader takes the bytes `x` for `a`, whatever stands behind them.
abbrev pub Reads : {A : Type 0} → Reader A → Bytes → A → Type 0
Reads r x a = (rest : Bytes) → r (x ++ rest) ≡ some (a, rest)

pub Reads-bind :
    {A B : Type 0} (r : Reader A) (k : A → Reader B) (x y : Bytes) {a : A} {b : B}
    → Reads r x a
    → Reads (k a) y b
    → Reads (r >>= k) (x ++ y) b
unfolding ◌>>=◌
Reads-bind r k x y h g rest = rw (append_assoc x y rest) (rw (h (y ++ rest)) (g rest))

pub expect-Reads : (p : Bytes) → Reads (expect p) p tt
unfolding expect
expect-Reads [] rest = refl
expect-Reads (b ∷ p) rest = ground (arith, expect-Reads p rest)

pub flag-Reads : (b : Bool) → Reads flag (json_bool b) b
unfolding flag expect ◌>>=◌
flag-Reads true rest = refl
flag-Reads false rest = refl

-- A byte that neither ends a string nor starts an escape.
abbrev IsPlain : ℕ → Type 0
IsPlain b = (eqb b 0x22 ≡ false) × (eqb b 0x5c ≡ false)

read_text-plain :
    (b : ℕ) (bs : Bytes) → IsPlain b → read_text plain (b ∷ bs) ≡ push (b ∷ []) (read_text plain bs)
unfolding read_text
read_text-plain b bs h = rw (h.0, h.1) refl

push-push : (p q : Bytes) (o : Option (Bytes × Bytes)) → push p (push q o) ≡ push (p ++ q) o
push-push p q none = refl
push-push p q (some (s, rest)) = ap (λ x. some (x, rest)) (sym (append_assoc p q s))

read_text-All :
    (p rest : Bytes) → All IsPlain p → read_text plain (p ++ rest) ≡ push p (read_text plain rest)
read_text-All [] rest h = sym (push-nil (read_text plain rest))
  where
    push-nil : (o : Option (Bytes × Bytes)) → push [] o ≡ o
    push-nil none = refl
    push-nil (some (s, r)) = refl
read_text-All (b ∷ p) rest h =
    read_text-plain b (p ++ rest) h.0
    ∙ ap (push (b ∷ [])) (read_text-All p rest h.1)
    ∙ push-push (b ∷ []) p (read_text plain rest)

utf8_char-All : (c : ℕ) → IsPlain c → All IsPlain (utf8_char c)
unfolding utf8_char
utf8_char-All c h = ground arith

abbrev is_hex : ℕ → Bool
is_hex v = elim (hex_value (hex_digit v)) [ none ↦ false | some u ↦ eqb u v ]

hex_table : holds_to is_hex 16 ≡ true
unfolding hex_digit
hex_table = refl

hex_value-hex_digit : (v : ℕ) → v < 16 → hex_value (hex_digit v) ≡ some v
hex_value-hex_digit v lt = of_test (hex_value (hex_digit v)) (holds_at is_hex v 16 lt hex_table)
  where
    of_test : (o : Option ℕ) → elim o [ none ↦ false | some u ↦ eqb u v ] ≡ true → o ≡ some v
    of_test none h = cc
    of_test (some u) h = ground arith

-- An escape of four digits that start with two zeros.
read_text-control :
    (h l x y : ℕ) (rest : Bytes)
    → hex_value h ≡ some x
    → hex_value l ≡ some y
    → read_text plain (0x5c ∷ b'u' ∷ b'0' ∷ b'0' ∷ h ∷ l ∷ rest)
      ≡ push (utf8_char ((0 + x) * 16 + y)) (read_text plain rest)
unfolding read_text
read_text-control h l x y rest hx ly = rw hx (rw ly refl)

abbrev ReadsChar : Bytes → ℕ → Type 0
ReadsChar rest c = read_text plain (json_char c ++ rest) ≡ push (utf8_char c) (read_text plain rest)

at : (rest : Bytes) (c v : ℕ) → eqb c v ≡ true → ReadsChar rest v → ReadsChar rest c
at rest c v h r = subst (ReadsChar rest) {x = v} {y = c} (ground arith) r

read_text-json_char_control :
    (c : ℕ) (rest : Bytes)
    → ltb c 0x20 ≡ true
    → read_text plain (0x5c ∷ b'u' ∷ b'0' ∷ b'0' ∷ hex_digit (c / 16) ∷ hex_digit (c % 16) ∷ rest)
      ≡ push (utf8_char c) (read_text plain rest)
read_text-json_char_control c rest small =
    let back : (0 + c / 16) * 16 + c % 16 ≡ c = omega arith in
    read_text-control (hex_digit (c / 16)) (hex_digit (c % 16)) (c / 16) (c % 16) rest
      (hex_value-hex_digit (c / 16) (ground arith)) (hex_value-hex_digit (c % 16) (omega arith))
    ∙ ap (λ v. push (utf8_char v) (read_text plain rest)) back

read_text-json_char : (c : ℕ) (rest : Bytes) → ReadsChar rest c
unfolding json_char read_text
read_text-json_char c rest =
    split (eqb c 0x22) (λ h. at rest c 0x22 h refl)
      λ a₁.
        split (eqb c 0x5c) (λ h. at rest c 0x5c h refl)
          λ a₂.
            split (eqb c 0x08) (λ h. at rest c 0x08 h refl)
              λ a₃.
                split (eqb c 0x0c) (λ h. at rest c 0x0c h refl)
                  λ a₄.
                    split (eqb c 0x0a) (λ h. at rest c 0x0a h refl)
                      λ a₅.
                        split (eqb c 0x0d) (λ h. at rest c 0x0d h refl)
                          λ a₆.
                            split (eqb c 0x09) (λ h. at rest c 0x09 h refl)
                              λ a₇.
                                split (eqb c 0x2028) (λ h. at rest c 0x2028 h refl)
                                  λ a₈.
                                    split (eqb c 0x2029) (λ h. at rest c 0x2029 h refl)
                                      λ a₉.
                                        split (ltb c 0x20)
                                          (λ h.
                                            rw (a₁, a₂, a₃, a₄, a₅, a₆, a₇, h)
                                              (read_text-json_char_control c rest h))
                                          λ h.
                                            rw (a₁, a₂, a₃, a₄, a₅, a₆, a₇, h, a₈, a₉)
                                              (read_text-All (utf8_char c) rest
                                                (utf8_char-All c (a₁, a₂)))
  where
    split : {X : Type 0} (b : Bool) → (b ≡ true → X) → (b ≡ false → X) → X
    split true t f = t refl
    split false t f = f refl

read_text-json_text :
    (s : String) (rest : Bytes) → read_text plain (json_text s ++ 0x22 ∷ rest) ≡ some (utf8 s, rest)
unfolding json_text utf8 read_text
read_text-json_text String.[] rest = refl
read_text-json_text (String.◌∷◌ c s) rest =
    ap (read_text plain) (append_assoc (json_char (code c)) (json_text s) (0x22 ∷ rest))
    ∙ read_text-json_char (code c) (json_text s ++ 0x22 ∷ rest)
    ∙ ap (push (utf8_char (code c))) (read_text-json_text s rest)

pub text-Reads : (s : String) → Reads text (json_string s) (utf8 s)
unfolding json_string expect ◌>>=◌
text-Reads s rest =
    ap (read_text plain) (append_assoc (json_text s) (0x22 ∷ []) rest) ∙ read_text-json_text s rest

IsNoComma : ℕ → Type 0
IsNoComma b = eqb b b',' ≡ false

to_comma-All : (p rest : Bytes) → All IsNoComma p → to_comma (p ++ b',' ∷ rest) ≡ some (p, rest)
unfolding to_comma IsNoComma
to_comma-All [] rest h = refl
to_comma-All (b ∷ p) rest h = rw h.0 (rw (to_comma-All p rest h.1) refl)

decimal-All :
    (fuel n : ℕ) (s : String) → All IsNoComma (utf8 s) → All IsNoComma (utf8 (decimal fuel n s))
unfolding decimal utf8 IsNoComma
decimal-All zero n s h = h
decimal-All (suc fuel) n s h = elim (Bool-cases (ltb n 10)) [
  | inl last ↦ rw last (front n (ground arith))
  | inr more ↦ rw more (decimal-All fuel (n / 10) _ (front (n % 10) (omega arith)))
]
  where
    front : (d : ℕ) → d < 10 → All IsNoComma (utf8 (String.◌∷◌ (digit d) s))
    front d lt =
        let e = code-digit d lt in rw e (rw (lt→ltb (48 + d) 128 (omega arith)) (ground arith, h))

itoa-All : (n : ℤ) → All IsNoComma (utf8 (itoa n))
unfolding itoa utf8 IsNoComma
itoa-All (pos n) = decimal-All (suc n) n "" tt
itoa-All (negsuc n) = (refl, decimal-All (suc (suc n)) (suc n) "" tt)

-- An integer with the comma behind it.
pub to_comma-Reads : (n : ℤ) → Reads to_comma (json_int n ++ b',' ∷ []) (json_int n)
unfolding json_int
to_comma-Reads n rest =
    ap to_comma (append_assoc (utf8 (itoa n)) (b',' ∷ []) rest)
    ∙ to_comma-All (utf8 (itoa n)) rest (itoa-All n)

pub Reads-last :
    {A B : Type 0} (r : Reader A) (g : A → B) (x : Bytes) {a : A}
    → Reads r x a
    → Reads (r >>= λ a. pure (g a)) x (g a)
unfolding ◌>>=◌
Reads-last r g x h rest = rw (h rest) refl
