-- ===== src/Web/Create/Decode.antt =====
-- internal/web/create.go: how encoding/json fills a createRequest from the body.
use swosh.Common.{String, Bool, true, false, Option, none, some, List, [], ◌∷◌, ◌==◌, if◌then◌else◌}
use swosh.Common.Int.{ℤ, pos}
use swosh.Common.Text.{trim_space}
use swosh.Common.Decimal.{parse_int}
use swosh.Web.Create.{NullableInt, CreateRequest}

-- The value that the object in the body gives a field at one mention of its key.
pub data Field : Type 0 where
  null : Field
  quoted : String → Field
  -- a number, by its literal
  number : String → Field
  boolean : Bool → Field
  -- an array or an object
  compound : Field

-- The mentions of each field, in order: none if it is missing, and more than one if its key is
-- repeated.
pub record CreateBody : Type 0 where
  pub phone : List Field
  pub amount : List Field
  pub message : List Field
  pub expire_after_seconds : List Field
  pub payee_editable : List Field
  pub amount_editable : List Field
  pub message_editable : List Field

abbrev pub or_none {ℓ κ} : {A : Type ℓ} {B : Type κ} → Option A → (A → Option B) → Option B
or_none none f = none
or_none (some a) f = f a

-- A value is set by each mention in turn; `none` is an error, with which `Decode` fails.
unfoldable pub set_each {ℓ} : {A : Type ℓ} → (A → Field → Option A) → A → List Field → Option A
set_each set a [] = some a
set_each set a (f ∷ fs) = or_none (set a f) λ b. set_each set b fs

-- The zero value of `nullableInt`
abbrev pub zero_int : NullableInt
zero_int = record { present = false; valid = false; value = pos 0 }

abbrev pub with_value : NullableInt → Option ℤ → Option NullableInt
with_value n none = none
with_value n (some v) = some (record n { present = true; valid = true; value = v })

-- `nullableInt.UnmarshalJSON`
unfoldable pub unmarshal_int : NullableInt → Field → Option NullableInt
unfolding parse_int trim_space
unmarshal_int n null = some (record n { present = true })
unmarshal_int n (quoted s) =
    if s == ""
    then some (record n { present = true })
    else with_value n (parse_int 63 (trim_space s))
unmarshal_int n (number s) = with_value n (parse_int 63 (trim_space s))
unmarshal_int n (boolean b) = none
unmarshal_int n compound = none

-- How encoding/json sets a `*string` and a `*bool`.
abbrev pub set_string : Option String → Field → Option (Option String)
set_string old null = some none
set_string old (quoted s) = some (some s)
set_string old _ = none

abbrev pub set_bool : Option Bool → Field → Option (Option Bool)
set_bool old null = some none
set_bool old (boolean b) = some (some b)
set_bool old _ = none

-- `Decode(&req)`
unfoldable pub decode : CreateBody → Option CreateRequest
unfolding unmarshal_int set_each
decode b = or_none (set_each set_string none b.phone) λ phone.
    or_none (set_each unmarshal_int zero_int b.amount) λ amount.
      or_none (set_each set_string none b.message) λ message.
        or_none (set_each unmarshal_int zero_int b.expire_after_seconds) λ expire.
          or_none (set_each set_bool none b.payee_editable) λ payee_editable.
            or_none (set_each set_bool none b.amount_editable) λ amount_editable.
              or_none (set_each set_bool none b.message_editable) λ message_editable. some (record {
                phone = phone;
                amount = amount;
                message = message;
                expire_after_seconds = expire;
                payee_editable = payee_editable;
                amount_editable = amount_editable;
                message_editable = message_editable;
              })
