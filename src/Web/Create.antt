-- ===== src/Web/Create.antt =====
-- internal/web/create.go: the request of POST /api/create and its checks.
pub mod Decode
pub mod Accepted
use swosh.Common.Text.{or_empty}
use swosh.Db.{second}
use swosh.Common.{
  ℕ, zero, suc, ◌+◌, ◌-◌, ◌*◌, ◌/◌, ◌%◌, ◌^◌, ◌≤◌, ◌<◌, Char, code, String, len, ◌≡◌, refl, sym, ap,
  ◌∙◌, subst, ◌≢◌, ◌↔◌, ◌⊎◌, inl, inr, Bool, true, false, not, ◌&&◌, ◌||◌, Option, none, some, List,
  [], ◌∷◌, ◌++◌, map, arith, ◌==◌, eq_iff, eq_refl, ltb, leb, eqb, if◌then◌else◌, ltb→lt, lt→ltb,
  leb→le, eqb_iff, Bool-cases, Option-cases, Result, ok, err, Result-cases, length, get_or, all,
  length-append, All, contains,
}
use swosh.Common.Int.{ℤ, pos, negsuc, ltb_ℤ, to_int32, ◌≤ℤ◌, pos_part}
use swosh.Common.Text.{trim_space, trim_func, utf16_length}
use swosh.Common.Decimal.{parse_int, is_digit}
use swosh.Common.Results.{◌>>=◌, ◌>>◌, refuse_if}
use swosh.Db.{Time}
use swosh.Web.I18n.{Arg}
use text.Mathlib.Text.{starts_with}

abbrev pub default_expiry : ℕ
default_expiry = 2 * 24 * 3600 * second

abbrev pub max_expiry : ℕ
max_expiry = 100 * 365 * 24 * 3600 * second

abbrev pub long_expiry : ℕ
long_expiry = 15_768_000 * second

abbrev pub max_amount : ℕ
max_amount = 150_000

abbrev pub max_message_length : ℕ
max_message_length = 50

abbrev pub sweden_country_code : ℕ
sweden_country_code = 46

abbrev pub swish_number_prefix : String
swish_number_prefix = "123"

abbrev pub swish_number_length : ℕ
swish_number_length = 10

pub record NullableInt : Type 0 where
  pub present : Bool
  pub valid : Bool
  pub value : ℤ

pub record CreateRequest : Type 0 where
  pub phone : Option String
  pub amount : NullableInt
  pub message : Option String
  pub expire_after_seconds : NullableInt
  pub payee_editable : Option Bool
  pub amount_editable : Option Bool
  pub message_editable : Option Bool

pub record NewSwosh : Type 0 where
  pub payee : String
  pub amount : ℤ
  pub description : Option String
  pub expires_on : Option Time
  pub payee_editable : Bool
  pub amount_editable : Bool
  pub message_editable : Bool

pub record ValidationError : Type 0 where
  pub field : String
  pub key : String
  pub args : List Arg

abbrev pub invalid : String → String → List Arg → ValidationError
invalid field key args = record { field = field; key = key; args = args }

abbrev pub Checked : Type 0 → Type 0
Checked A = Result ValidationError A

-- github.com/nyaruka/phonenumbers: `Parse` with a region, the country code of a number, whether
-- `GetNumberType` is MOBILE, and `Format` with NATIONAL. A number is known by the text it was
-- parsed from.
pub record Phonenumbers : Type 0 where
  pub parses : String → Bool
  pub country_code : String → ℕ
  pub is_mobile : String → Bool
  pub national : String → String

unfoldable pub is_swish_number : String → Bool
unfolding trim_func
is_swish_number phone =
    if not (eqb (len phone) swish_number_length) || not (starts_with phone swish_number_prefix)
    then false
    else trim_func is_digit phone == ""

module _ (p : Phonenumbers) where
  unfoldable pub format_payee : String → Checked String
  unfolding is_swish_number
  format_payee phone =
      if is_swish_number phone
      then ok phone
      else if not (p.parses phone)
      then err (invalid "phone" "api.badphone" (Arg.str phone ∷ []))
      else if not (eqb (p.country_code phone) sweden_country_code) || not (p.is_mobile phone)
      then err (invalid "phone" "api.notmobile" (Arg.str phone ∷ []))
      else ok (p.national phone)

-- `validate` up to the message: the description to store, which is none for a blank message.
unfoldable pub check_message : Option String → Checked (Option String)
unfolding utf16_length trim_space
check_message none = ok none
check_message (some message) =
    if ltb max_message_length (utf16_length message)
    then err (
        invalid "message" "api.toolong"
          (Arg.num (pos max_message_length) ∷ Arg.num (pos (utf16_length message)) ∷ []))
    else ok (if trim_space message == "" then none else some message)

-- `time.Duration(secs) * time.Second` for `secs` that is not negative: the low 64 bits.
abbrev pub seconds : ℕ → ℕ
seconds secs = secs * second % 2 ^ 64

abbrev pub bad_expiry : ℤ → ValidationError
bad_expiry secs =
    invalid "" "api.badexpiry" (Arg.num (pos (max_expiry / second)) ∷ Arg.num secs ∷ [])

-- The method `expiresOn` of a request; `none` is a link that never expires.
abbrev pub expires_after : NullableInt → Checked (Option ℕ)
expires_after n =
    if not n.present
    then ok (some default_expiry)
    else if not n.valid
    then ok none
    else elim n.value [
      | negsuc k ↦ err (bad_expiry (negsuc k))
      | pos secs ↦
          if eqb secs 0
          then ok none
          else if ltb (max_expiry / second) secs
          then err (bad_expiry (pos secs))
          else ok (some (seconds secs))
    ]

unfoldable pub expires_on : NullableInt → Time → Checked (Option Time)
expires_on n now =
    expires_after n >>= λ after. ok (elim after [ none ↦ none | some d ↦ some (now + d) ])

abbrev pub or_default : Option Bool → Bool → Bool
or_default none d = d
or_default (some b) d = b

-- `req.Phone == nil || strings.TrimSpace(*req.Phone) == ""`
unfoldable pub is_blank : Option String → Bool
unfolding trim_space
is_blank none = true
is_blank (some s) = trim_space s == ""

-- `expiresOn == nil || expiresOn.Sub(now) >= longExpiry`
abbrev pub is_long : Option Time → Time → Bool
is_long none now = true
is_long (some t) now = leb long_expiry (t - now)

abbrev pub is_none {ℓ} : {A : Type ℓ} → Option A → Bool
is_none none = true
is_none (some a) = false

module _ (p : Phonenumbers) where
  unfoldable pub validate : CreateRequest → Time → Checked NewSwosh
  validate req now = do
    refuse_if (not req.amount.valid || is_blank req.phone) (invalid "" "api.missing" [])
    refuse_if (ltb_ℤ req.amount.value (pos 1))
        (invalid "amount" "api.min" (Arg.num req.amount.value ∷ []))
    refuse_if (ltb_ℤ (pos max_amount) req.amount.value)
        (invalid "amount" "api.max" (Arg.num (pos max_amount) ∷ Arg.num req.amount.value ∷ []))
    description ← check_message req.message
    payee ← format_payee p (or_empty req.phone)
    expires ← expires_on req.expire_after_seconds now
    refuse_if (is_none description && is_long expires now) (invalid "message" "api.needmessage" [])
    ok (record {
      payee = payee;
      amount = to_int32 req.amount.value;
      description = description;
      expires_on = expires;
      payee_editable = or_default req.payee_editable false;
      amount_editable = or_default req.amount_editable false;
      message_editable = or_default req.message_editable true;
    })
