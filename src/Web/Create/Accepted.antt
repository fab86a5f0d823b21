-- ===== src/Web/Create/Accepted.antt =====
-- What POST /api/create accepts, said without the order of the checks in internal/web/create.go.
use swosh.Common.Text.{or_empty}
use swosh.Db.{second}
use swosh.Common.{
  ℕ, zero, suc, ◌+◌, ◌*◌, ◌≤◌, ◌<◌, String, len, ◌≡◌, refl, sym, ap, ◌∙◌, ◌↔◌, ◌⊎◌, inl, inr, Bool,
  true, false, ◌&&◌, Option, none, some, arith, ◌==◌, eq_iff, if◌then◌else◌, ok,
}
use swosh.Common.Int.{ℤ, pos, negsuc, ltb_ℤ, to_int32, to_int32-pos}
use swosh.Common.Text.{every, is_space, trim_space, trim_func, trim_func-empty, utf16_length}
use swosh.Common.Decimal.{is_digit}
use swosh.Db.{Time}
use swosh.Web.Create.{
  long_expiry, CreateRequest, NewSwosh, Phonenumbers, is_swish_number, format_payee, check_message,
  expires_on, or_default, is_blank, is_long, is_none, validate,
}
use text.Mathlib.Text.{starts_with}

pub trim_space_eq : (s : String) → (trim_space s == "") ≡ every is_space s
unfolding trim_space is_space
trim_space_eq s = grind (arith, trim_func-empty is_space s, eq_iff (trim_space s) "")

-- A Swish number is ten bytes that are digits, the first three 1, 2 and 3.
abbrev pub IsSwishNumber : String → Type 0
IsSwishNumber s = (len s ≡ 10) × (starts_with s "123" ≡ true) × (every is_digit s ≡ true)

-- `isSwishNumber` holds exactly of a text of ten bytes that starts with 123 and has digits only.
pub is_swish_number_iff : (s : String) → (is_swish_number s ≡ true) ↔ IsSwishNumber s
unfolding is_swish_number
is_swish_number_iff s = ground (arith, trim_func-empty is_digit s, eq_iff (trim_func is_digit s) "")

-- The payee that is stored for a phone number.
abbrev pub PayeeOf : Phonenumbers → String → String → Type 0
PayeeOf p phone payee =
    (IsSwishNumber phone × (payee ≡ phone))
    ⊎ ((¬ IsSwishNumber phone)
        × (p.parses phone ≡ true)
        × (p.country_code phone ≡ 46)
        × (p.is_mobile phone ≡ true)
        × (payee ≡ p.national phone))

abbrev pub MessageOf : Option String → Option String → Type 0
MessageOf none d = d ≡ none
MessageOf (some s) d = (utf16_length s ≤ 50) × (d ≡ (if every is_space s then none else some s))

abbrev pub ExpiryOf : Bool → Bool → ℤ → Time → Option Time → Type 0
ExpiryOf false valid value now t = t ≡ some (now + 172_800 * second)
ExpiryOf true false value now t = t ≡ none
ExpiryOf true true (pos zero) now t = t ≡ none
ExpiryOf true true (pos (suc n)) now t = (suc n ≤ 3_153_600_000) × (t ≡ some (now + suc n * second))
ExpiryOf true true (negsuc n) now t = ⊥

-- The expiry of a stored link: two days by default, never if asked for, and else what was asked.
expires_on_at :
    (present valid : Bool) (value : ℤ) (now : Time) (t : Option Time)
    → (expires_on (record { present = present; valid = valid; value = value }) now ≡ ok t)
      ↔ ExpiryOf present valid value now t
unfolding expires_on
expires_on_at false valid value now t = ground arith
expires_on_at true false value now t = ground arith
expires_on_at true true (pos zero) now t = ground arith
expires_on_at true true (pos (suc n)) now t = ground arith
expires_on_at true true (negsuc n) now t = ground arith

check_message_iff : (m d : Option String) → (check_message m ≡ ok d) ↔ MessageOf m d
unfolding check_message
check_message_iff none d = ground arith
check_message_iff (some s) d = ground (arith, trim_space_eq s)

module _ (p : Phonenumbers) where
  format_payee_iff :
      (phone payee : String) → (format_payee p phone ≡ ok payee) ↔ PayeeOf p phone payee
  unfolding format_payee
  format_payee_iff phone payee = ground (arith, is_swish_number_iff phone)

  -- Everything that a link accepted from a request has.
  pub record IsAccepted (req : CreateRequest) (now : Time) (n : NewSwosh) : Type 0 where
    pub phone : String
    pub phone_given : req.phone ≡ some phone
    pub phone_not_blank : every is_space phone ≡ false
    pub kronor : ℕ
    pub amount_given : req.amount.valid ≡ true
    pub amount_is : req.amount.value ≡ pos kronor
    pub at_least_one : 1 ≤ kronor
    pub at_most : kronor ≤ 150_000
    pub message : MessageOf req.message n.description
    pub payee : PayeeOf p phone n.payee
    pub expiry :
        ExpiryOf req.expire_after_seconds.present req.expire_after_seconds.valid
          req.expire_after_seconds.value now n.expires_on
    -- a link has a description, or it expires within half a year
    pub named :
        ((d : String) × (n.description ≡ some d))
        ⊎ ((t : Time) × (n.expires_on ≡ some t) × (t < now + long_expiry))
    -- the amount fits the `int32` that is stored
    pub amount : n.amount ≡ pos kronor
    pub payee_editable : n.payee_editable ≡ or_default req.payee_editable false
    pub amount_editable : n.amount_editable ≡ or_default req.amount_editable false
    pub message_editable : n.message_editable ≡ or_default req.message_editable true

  given_phone :
      (phone : Option String)
      → is_blank phone ≡ false
      → (s : String) × (phone ≡ some s) × (every is_space s ≡ false)
  unfolding is_blank
  given_phone none h = cc
  given_phone (some s) h = (s, refl, sym (trim_space_eq s) ∙ h)

  kronor_of :
      (a : ℤ)
      → ltb_ℤ a (pos 1) ≡ false
      → ltb_ℤ (pos 150_000) a ≡ false
      → (k : ℕ) × (a ≡ pos k) × (1 ≤ k) × (k ≤ 150_000)
  kronor_of (pos k) lo hi = (k, refl, ground arith, ground arith)
  kronor_of (negsuc k) lo hi = ground arith

  -- What each step of `validate` has returned when it accepts a request.
  abbrev Steps : CreateRequest → Time → NewSwosh → Type 0
  Steps req now n =
      (req.amount.valid ≡ true)
      × (is_blank req.phone ≡ false)
      × (ltb_ℤ req.amount.value (pos 1) ≡ false)
      × (ltb_ℤ (pos 150_000) req.amount.value ≡ false)
      × (check_message req.message ≡ ok n.description)
      × (format_payee p (or_empty req.phone) ≡ ok n.payee)
      × (expires_on req.expire_after_seconds now ≡ ok n.expires_on)
      × (is_none n.description && is_long n.expires_on now ≡ false)
      × (n.amount ≡ to_int32 req.amount.value)
      × (n.payee_editable ≡ or_default req.payee_editable false)
      × (n.amount_editable ≡ or_default req.amount_editable false)
      × (n.message_editable ≡ or_default req.message_editable true)

  Steps-iff :
      (req : CreateRequest) (now : Time) (n : NewSwosh)
      → (validate p req now ≡ ok n) ↔ Steps req now n
  unfolding validate
  Steps-iff req now n = (λ e. ground arith, λ s. ground arith)

  Steps-IsAccepted :
      (req : CreateRequest) (now : Time) (n : NewSwosh) → Steps req now n → IsAccepted req now n
  Steps-IsAccepted req now n s =
      let (phone, given, not_blank) = given_phone req.phone s.1 in
      let (k, amount, lo, hi) = kronor_of req.amount.value s.2 s.3 in
      record {
        phone = phone;
        phone_given = given;
        phone_not_blank = not_blank;
        kronor = k;
        amount_given = s.0;
        amount_is = amount;
        at_least_one = lo;
        at_most = hi;
        message = (check_message_iff _ _).0 s.4;
        payee = (format_payee_iff phone n.payee).0 (rw given at s.5);
        expiry = (expires_on_at _ _ _ now n.expires_on).0 s.6;
        named = name_of n.description n.expires_on now s.7;
        amount = s.8 ∙ ap to_int32 amount ∙ to_int32-pos k (omega arith);
        payee_editable = s.9;
        amount_editable = s.10;
        message_editable = s.11;
      }
    where
      name_of :
          (d : Option String) (t : Option Time) (now : Time)
          → is_none d && is_long t now ≡ false
          → ((m : String) × (d ≡ some m)) ⊎ ((u : Time) × (t ≡ some u) × (u < now + long_expiry))
      name_of (some m) t now h = inl (m, refl)
      name_of none none now h = ground arith
      name_of none (some u) now h = inr (u, refl, ground arith)

  is_named :
      (d : Option String) (t : Option Time) (now : Time)
      → ((m : String) × (d ≡ some m)) ⊎ ((u : Time) × (t ≡ some u) × (u < now + long_expiry))
      → is_none d && is_long t now ≡ false
  is_named d t now (inl (m, e)) = rw e refl
  is_named none t now (inr (u, e, lt)) = rw e (ground arith)
  is_named (some m) t now (inr (u, e, lt)) = refl

  IsAccepted-Steps :
      (req : CreateRequest) (now : Time) (n : NewSwosh) → IsAccepted req now n → Steps req now n
  unfolding is_blank
  IsAccepted-Steps req now n a = (
    a.amount_given,
    rw a.phone_given (trim_space_eq a.phone ∙ a.phone_not_blank),
    rw a.amount_is (ground arith),
    rw a.amount_is (ground arith),
    (check_message_iff _ _).1 a.message,
    rw a.phone_given ((format_payee_iff a.phone n.payee).1 a.payee),
    (expires_on_at _ _ _ now n.expires_on).1 a.expiry,
    is_named n.description n.expires_on now a.named,
    a.amount ∙ sym (ap to_int32 a.amount_is ∙ to_int32-pos a.kronor (omega arith)),
    a.payee_editable,
    a.amount_editable,
    a.message_editable,
  )

  -- `validate` returns a link exactly if the request is acceptable and the link is what it asks
  -- for: a phone number that is not blank and its payee, an amount from 1 to 150000, a message of
  -- at most 50 UTF-16 units that is dropped if it is blank, an expiry of two days by default,
  -- never for null or 0, and else of at most 100 years from now, a message or an expiry within
  -- half a year, and the flags with their defaults.
  pub validate_iff :
      (req : CreateRequest) (now : Time) (n : NewSwosh)
      → (validate p req now ≡ ok n) ↔ IsAccepted req now n
  validate_iff req now n = (
    λ e. Steps-IsAccepted req now n ((Steps-iff req now n).0 e),
    λ a. (Steps-iff req now n).1 (IsAccepted-Steps req now n a),
  )
