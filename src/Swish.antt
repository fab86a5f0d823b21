-- ===== src/Swish.antt =====
-- internal/swish/swish.go: the payment that the Swish app is opened with.
pub mod Json
pub mod Escape
pub mod Qr
pub mod Uri
pub mod Payload
use Prim.Native.String.{String}
use swosh.Common.{
  ℕ, zero, suc, ◌+◌, ◌-◌, ◌*◌, ◌/◌, ◌%◌, ◌^◌, ◌≤◌, ◌<◌, Char, code, len, ◌≡◌, refl, sym, ap, ◌∙◌,
  subst, ◌≢◌, ◌↔◌, ◌⊎◌, inl, inr, Bool, true, false, not, ◌&&◌, ◌||◌, Option, none, some, List, [],
  ◌∷◌, ◌++◌, map, arith, ◌==◌, eq_iff, eq_refl, ltb, leb, eqb, if◌then◌else◌, ltb→lt, lt→ltb,
  leb→le, eqb_iff, Bool-cases, Option-cases, Result, ok, err, Result-cases, length, get_or, all,
  length-append, All, contains,
}
use swosh.Common.Bytes.{Bytes, utf8}
use swosh.Common.Int.{ℤ}
use swosh.Swish.Json.{json_string, json_int, json_key, json_value}
use swosh.Swish.Escape.{escape_bytes}
use Prim.Native.String.{◌++◌ as ◌<>◌}

pub record Payment : Type 0 where
  pub payee : String
  pub amount : ℤ
  pub message : String
  pub payee_editable : Bool
  pub amount_editable : Bool
  pub message_editable : Bool

-- The fields payee, amount and message, which a link and a request for a QR code both have.
unfoldable pub marshal_fields : Payment → Bytes
unfolding json_key json_string json_int json_value
marshal_fields p =
    json_key "payee"
    ++ (json_value (json_string p.payee) p.payee_editable
        ++ (b','
            ∷ (json_key "amount"
                ++ (json_value (json_int p.amount) p.amount_editable
                    ++ (b','
                        ∷ (json_key "message"
                            ++ json_value (json_string p.message) p.message_editable))))))

-- `marshal` of a `uriData`
unfoldable pub marshal : Payment → Bytes
unfolding marshal_fields json_key
marshal p = b'{' ∷ (json_key "version" ++ (b'1' ∷ b',' ∷ (marshal_fields p ++ b'}' ∷ [])))

-- `strings.ReplaceAll(s, "+", "%20")`
unfoldable pub replace_plus : String → String
replace_plus String.[] = ""
replace_plus (String.◌∷◌ c s) =
    let rest = replace_plus s in if eqb (code c) b'+' then ◌<>◌ "%20" rest else String.◌∷◌ c rest

-- The method `URI`
unfoldable pub uri : Payment → String
unfolding marshal escape_bytes replace_plus
uri p = ◌<>◌ "swish://payment?data=" (replace_plus (escape_bytes (marshal p)))
