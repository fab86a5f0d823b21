-- ===== src/Swish/Payload.antt =====
-- The link of internal/swish/swish.go holds the payment that it is made for.
use Prim.Native.String.{String}
use swosh.Common.{◌≡◌, sym, ap, ◌∙◌, subst, Bool, some, [], ◌∷◌, ◌++◌}
use swosh.Common.Bytes.{Bytes, utf8}
use swosh.Common.Int.{ℤ}
use swosh.Swish.{Payment, marshal_fields, marshal}
use swosh.Swish.Json.{json_string, json_bool, json_int, json_key, json_value}
use swosh.Swish.Json.Reader.{Reader, ◌>>=◌, pure, expect, text, to_comma, flag}
use swosh.Swish.Json.Laws.{
  Reads, Reads-bind, Reads-last, expect-Reads, flag-Reads, text-Reads, to_comma-Reads,
}
use mathlib.Core.List.{append_assoc, append-nil}

-- A payment as a reader of the link finds it: texts by their UTF-8, the amount by its digits.
pub record Reading : Type 0 where
  pub payee : Bytes × Bool
  pub amount : Bytes × Bool
  pub message : Bytes × Bool

abbrev pub reading_of : Payment → Reading
reading_of p = record {
  payee = (utf8 p.payee, p.payee_editable);
  amount = (json_int p.amount, p.amount_editable);
  message = (utf8 p.message, p.message_editable);
}

abbrev read_editable : Bytes → Reader (Bytes × Bool)
read_editable v = do editable ← flag; _ ← expect (b'}' ∷ []); pure (v, editable)

abbrev read_string : Reader (Bytes × Bool)
read_string = do
  _ ← expect (b'{' ∷ json_key "value")
  v ← text
  _ ← expect (b',' ∷ json_key "editable")
  read_editable v

abbrev read_int : Reader (Bytes × Bool)
read_int = do
  _ ← expect (b'{' ∷ json_key "value")
  v ← to_comma
  _ ← expect (json_key "editable")
  read_editable v

abbrev read_fields : Reader Reading
read_fields = do
  _ ← expect (json_key "payee")
  payee ← read_string
  _ ← expect (b',' ∷ json_key "amount")
  amount ← read_int
  _ ← expect (b',' ∷ json_key "message")
  message ← read_string
  pure (record { payee = payee; amount = amount; message = message })

-- The reader of a link's payload.
unfoldable pub read_payload : Reader Reading
read_payload = do
  _ ← expect (b'{' ∷ (json_key "version" ++ b'1' ∷ b',' ∷ []))
  fields ← read_fields
  _ ← expect (b'}' ∷ [])
  pure fields

read_editable-Reads :
    (v : Bytes) (b : Bool) → Reads (read_editable v) (json_bool b ++ b'}' ∷ []) (v, b)
read_editable-Reads v b =
    Reads-bind flag (λ e. expect (b'}' ∷ []) >>= λ _. pure (v, e)) (json_bool b) (b'}' ∷ [])
      (flag-Reads b)
      (Reads-last (expect (b'}' ∷ [])) (λ _. (v, b)) (b'}' ∷ []) (expect-Reads (b'}' ∷ [])))

abbrev opening : Bytes
opening = b'{' ∷ json_key "value"

abbrev middle : Bytes
middle = b',' ∷ json_key "editable"

abbrev closing : Bool → Bytes
closing b = json_bool b ++ b'}' ∷ []

read_string-Reads :
    (s : String) (b : Bool) → Reads read_string (json_value (json_string s) b) (utf8 s, b)
unfolding json_value
read_string-Reads s b =
    Reads-bind (expect opening) _ opening (json_string s ++ (middle ++ closing b))
      (expect-Reads opening)
      (Reads-bind text _ (json_string s) (middle ++ closing b) (text-Reads s) (
        Reads-bind (expect middle) _ middle (closing b) (expect-Reads middle)
          (read_editable-Reads (utf8 s) b)))

read_int-Reads : (n : ℤ) (b : Bool) → Reads read_int (json_value (json_int n) b) (json_int n, b)
unfolding json_value
read_int-Reads n b =
    let digits = json_int n ++ b',' ∷ [] in
    let joined = append_assoc (json_int n) (b',' ∷ []) (json_key "editable" ++ closing b) in
    subst (λ x. Reads read_int (opening ++ x) (json_int n, b)) joined
      (Reads-bind (expect opening) _ opening (digits ++ (json_key "editable" ++ closing b))
        (expect-Reads opening)
        (Reads-bind to_comma _ digits (json_key "editable" ++ closing b) (to_comma-Reads n) (
          Reads-bind (expect (json_key "editable")) _ (json_key "editable") (closing b)
            (expect-Reads (json_key "editable")) (read_editable-Reads (json_int n) b))))

abbrev string_of : String → Bool → Bytes
string_of s b = json_value (json_string s) b

abbrev message_part : Payment → Bytes
message_part p = (b',' ∷ json_key "message") ++ string_of p.message p.message_editable

abbrev amount_part : Payment → Bytes
amount_part p =
    (b',' ∷ json_key "amount")
    ++ (json_value (json_int p.amount) p.amount_editable ++ message_part p)

read_fields-Reads : (p : Payment) → Reads read_fields (marshal_fields p) (reading_of p)
unfolding marshal_fields
read_fields-Reads p =
    Reads-bind (expect (json_key "payee")) _ (json_key "payee")
      (string_of p.payee p.payee_editable ++ amount_part p) (expect-Reads (json_key "payee"))
      (Reads-bind read_string _ (string_of p.payee p.payee_editable) (amount_part p)
        (read_string-Reads p.payee p.payee_editable)
        (Reads-bind (expect (b',' ∷ json_key "amount")) _ (b',' ∷ json_key "amount")
          (json_value (json_int p.amount) p.amount_editable ++ message_part p)
          (expect-Reads (b',' ∷ json_key "amount"))
          (Reads-bind read_int _ (json_value (json_int p.amount) p.amount_editable) (message_part p)
            (read_int-Reads p.amount p.amount_editable)
            (Reads-bind (expect (b',' ∷ json_key "message")) _ (b',' ∷ json_key "message")
              (string_of p.message p.message_editable) (expect-Reads (b',' ∷ json_key "message"))
              (Reads-last read_string _ (string_of p.message p.message_editable)
                (read_string-Reads p.message p.message_editable))))))

abbrev version_part : Bytes
version_part = b'{' ∷ (json_key "version" ++ b'1' ∷ b',' ∷ [])

-- Reading the JSON of a payment gives the payment's reading, with nothing behind it.
pub read_payload-marshal : (p : Payment) → read_payload (marshal p) ≡ some (reading_of p, [])
unfolding read_payload marshal
read_payload-marshal p = ap read_payload (sym (append-nil (marshal p))) ∙ whole []
  where
    whole : Reads read_payload (marshal p) (reading_of p)
    whole =
        Reads-bind (expect version_part) _ version_part (marshal_fields p ++ b'}' ∷ [])
          (expect-Reads version_part)
          (Reads-bind read_fields _ (marshal_fields p) (b'}' ∷ []) (read_fields-Reads p) (
            Reads-last (expect (b'}' ∷ [])) (λ _. reading_of p) (b'}' ∷ [])
              (expect-Reads (b'}' ∷ []))))
