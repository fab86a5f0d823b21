-- ===== src/Web/Admin.antt =====
-- internal/web/admin.go: the edit form of a link and its checks.
pub mod Handlers
pub mod Form
pub mod Sent
pub mod Effects
pub mod Equal
pub mod Ids
use Prim.Native.String.{String}
use swosh.Common.Text.{or_empty}
use swosh.Db.{second}
use swosh.Common.{
  ℕ, zero, suc, ◌+◌, ◌-◌, ◌*◌, ◌/◌, ◌%◌, ◌^◌, ◌≤◌, ◌<◌, Char, code, len, ◌≡◌, refl, sym, ap, ◌∙◌,
  subst, ◌≢◌, ◌↔◌, ◌⊎◌, inl, inr, Bool, true, false, not, ◌&&◌, ◌||◌, Option, none, some, List, [],
  ◌∷◌, ◌++◌, map, arith, ◌==◌, eq_iff, eq_refl, ltb, leb, eqb, if◌then◌else◌, ltb→lt, lt→ltb,
  leb→le, eqb_iff, Bool-cases, Option-cases, Result, ok, err, Result-cases, length, get_or, all,
  length-append, All, contains,
}
use swosh.Common.Int.{ℤ, pos, negsuc, to_int32, ltb_ℤ, pos_part, neg_part}
use swosh.Common.Text.{every, trim_space, is_empty}
use swosh.Common.Decimal.{is_digit, itoa, parse_int}
use swosh.Db.{Time, Swosh, UpdateSwoshParams}
use swosh.Auth.Users.{update, delete}
use swosh.Web.Http.{AdminLink, AdminPage}
use swosh.Web.Server.{Server}
use swosh.Web.Authn.{Principal, has, csrf_token}
use Prim.Native.String.{◌++◌ as ◌<>◌}

abbrev pub is_id_char : ℕ → Bool
is_id_char c =
    leb b'A' c && leb c b'Z' || leb b'a' c && leb c b'z' || is_digit c || eqb c b'_' || eqb c b'-'

-- `validID`, ^[A-Za-z0-9_-]{1,64}$; what it matches takes a byte for each character.
unfoldable pub valid_id : String → Bool
valid_id id = every is_id_char id && leb 1 (len id) && leb (len id) 64

abbrev pub reserved_ids : List String
reserved_ids = "admin" ∷ "api" ∷ "lang" ∷ "login" ∷ "logout" ∷ "theme" ∷ []

-- A reserved id, in capitals too. It is asked of ids that `valid_id` passes, where
-- `strings.ToLower` changes ASCII letters only.
abbrev pub lower : ℕ → ℕ
lower c = if leb b'A' c && leb c b'Z' then c + 32 else c

unfoldable pub same_lower : String → String → Bool
same_lower String.[] String.[] = true
same_lower String.[] (String.◌∷◌ d t) = false
same_lower (String.◌∷◌ c s) String.[] = false
same_lower (String.◌∷◌ c s) (String.◌∷◌ d t) = eqb (lower (code c)) (code d) && same_lower s t

unfoldable pub is_reserved : List String → String → Bool
unfolding same_lower
is_reserved [] id = false
is_reserved (r ∷ rs) id = same_lower id r || is_reserved rs id

-- `sameTime`
unfoldable pub same_time : Option Time → Option Time → Bool
same_time none none = true
same_time none (some b) = false
same_time (some a) none = false
same_time (some a) (some b) = eqb a b

abbrev pub eqb_ℤ : ℤ → ℤ → Bool
eqb_ℤ a b = eqb (pos_part a) (pos_part b) && eqb (neg_part a) (neg_part b)

-- A group of `changes`: a field with its old and new value.
pub data Change : Type 0 where
  payee_changed description_changed : String → String → Change
  amount_changed : ℤ → ℤ → Change
  expiry_changed : Option Time → Option Time → Change

abbrev pub change : Bool → Change → List Change
change true c = c ∷ []
change false c = []

unfoldable pub changes : Swosh → UpdateSwoshParams → List Change
unfolding same_time
changes sw arg =
    change (not (arg.payee == sw.payee)) (payee_changed sw.payee arg.payee)
    ++ (change (not (eqb_ℤ arg.amount sw.amount)) (amount_changed sw.amount arg.amount)
        ++ (change (not (or_empty sw.description == or_empty arg.description))
              (description_changed (or_empty sw.description) (or_empty arg.description))
            ++ change (not (same_time sw.expires_on arg.expires_on))
                (expiry_changed sw.expires_on arg.expires_on)))

module _ (s : Server) where
  abbrev pub time_text : Option Time → String
  time_text none = ""
  time_text (some t) = s.rfc3339 t

  unfoldable pub new_admin_page : Principal → AdminPage
  new_admin_page p = record {
    user = p.name;
    csrf = csrf_token s p;
    error = "";
    count = 0;
    can_delete = false;
    links = [];
  }

  -- `adminLinkOf`
  unfoldable pub admin_link_of : Swosh → Principal → AdminLink
  admin_link_of sw p = record {
    original_id = sw.id;
    id = sw.id;
    payee = sw.payee;
    amount = itoa sw.amount;
    description = or_empty sw.description;
    expires_on = time_text sw.expires_on;
    created_at = s.rfc3339 sw.created_at;
    last_accessed_at = time_text sw.last_accessed_at;
    can_update = has p update;
    can_delete = has p delete;
  }

  -- The amount of the form: a whole number of 32 bits, 0 or more.
  abbrev pub form_amount : Option ℤ → Result String ℤ
  form_amount none = err "The amount must be a whole number, 0 or more."
  form_amount (some n) =
      if ltb_ℤ n (pos 0)
      then err "The amount must be a whole number, 0 or more."
      else ok (to_int32 n)

  -- `sw.ExpiresOn != nil && sw.ExpiresOn.Truncate(time.Second).Equal(t)`
  abbrev pub is_unchanged : Option Time → Time → Bool
  is_unchanged none t = false
  is_unchanged (some e) t = eqb (e - e % second) t

  abbrev pub new_expiry : Option Time → Time → Option Time → Result String (Option Time)
  new_expiry old now none = err "The expiry must be a date and time, or blank for never."
  new_expiry old now (some t) =
      if is_unchanged old t
      then ok old
      else if not (ltb now t)
      then err "The expiry must be in the future. Delete the link to stop it working now."
      else ok (some t)

  abbrev pub form_expiry : Option Time → Time → String → Result String (Option Time)
  form_expiry old now text =
      if text == "" then ok none else new_expiry old now (s.parse_rfc3339 text)

  -- The `switch` of `params`: the message for an id or a payee that would break the link.
  unfoldable pub form_fault : AdminLink → Option String
  unfolding valid_id is_reserved
  form_fault l =
      if l.id == ""
      then some "The id must not be blank."
      else if not (valid_id l.id)
      then some "The id may only contain letters, digits, - and _, and be at most 64 characters."
      else if is_reserved reserved_ids l.id
      then some (◌<>◌ (s.quote l.id) " is used by swosh itself and can't be a link id.")
      else if l.payee == ""
      then some "The phone number must not be blank."
      else none

  abbrev pub edit_of : AdminLink → ℤ → Option Time → UpdateSwoshParams
  edit_of l amount expires = record {
    new_id = l.id;
    payee = l.payee;
    amount = amount;
    description = if trim_space l.description == "" then none else some l.description;
    expires_on = expires;
    id = l.original_id;
  }

  abbrev pub with_expiry :
      AdminLink → ℤ → Result String (Option Time) → Result String UpdateSwoshParams
  with_expiry l amount (err msg) = err msg
  with_expiry l amount (ok expires) = ok (edit_of l amount expires)

  abbrev pub with_amount :
      AdminLink → Option Time → Time → Result String ℤ → Result String UpdateSwoshParams
  with_amount l old now (err msg) = err msg
  with_amount l old now (ok amount) = with_expiry l amount (form_expiry old now l.expires_on)

  abbrev pub unless_fault :
      AdminLink → Option Time → Time → Option String → Result String UpdateSwoshParams
  unless_fault l old now (some msg) = err msg
  unless_fault l old now none = with_amount l old now (form_amount (parse_int 31 l.amount))

  -- `params`; an error is the message for the admin.
  unfoldable pub params : AdminLink → Swosh → Time → Result String UpdateSwoshParams
  unfolding form_fault
  params l sw now = unless_fault l sw.expires_on now (form_fault l)
