-- ===== src/Web/Admin/Form.antt =====
-- What `params` and `changes` of internal/web/admin.go promise about an edit.
use swosh.Common.Text.{or_empty}
use swosh.Db.{second}
use swosh.Common.{
  ℕ, ◌-◌, ◌%◌, ◌^◌, ◌≤◌, ◌<◌, String, len, ◌≡◌, refl, sym, ap, ◌∙◌, subst, ◌≢◌, ◌↔◌, ◌⊎◌, inl, inr,
  true, false, Option, none, some, [], arith, ◌==◌, eq_iff, if◌then◌else◌, Bool-cases, Result, ok,
  err,
}
use swosh.Common.Int.{ℤ, pos, negsuc, to_int32, to_int32-pos}
use swosh.Common.Text.{trim_space, every}
use swosh.Common.Decimal.{parse_int, itoa, parse_int-itoa_pos, parse_int-bound}
use swosh.Db.{Time, Swosh, UpdateSwoshParams, edit}
use swosh.Web.Http.{AdminLink}
use swosh.Web.Server.{Server}
use swosh.Web.Authn.{Principal}
use swosh.Web.Create.Accepted.{trim_space_eq}
use swosh.Web.Admin.{
  is_id_char, valid_id, reserved_ids, is_reserved, same_time, eqb_ℤ, changes, time_text,
  admin_link_of, form_amount, new_expiry, form_expiry, form_fault, edit_of, with_expiry,
  with_amount, unless_fault, params,
}

same_time_iff : (a b : Option Time) → (same_time a b ≡ true) ↔ (a ≡ b)
unfolding same_time
same_time_iff none none = ground arith
same_time_iff none (some b) = ground arith
same_time_iff (some a) none = ground arith
same_time_iff (some a) (some b) = ground arith

eqb_ℤ_iff : (a b : ℤ) → (eqb_ℤ a b ≡ true) ↔ (a ≡ b)
eqb_ℤ_iff a b = ground arith

-- `changes` logs nothing of an edit exactly if the edit keeps the payee, the amount, the
-- description, where none is the same as an empty one, and the expiry.
pub changes-nil_iff :
    (sw : Swosh) (arg : UpdateSwoshParams)
    → (changes sw arg ≡ []) ↔ (
        (arg.payee ≡ sw.payee)
        × (arg.amount ≡ sw.amount)
        × (or_empty sw.description ≡ or_empty arg.description)
        × (sw.expires_on ≡ arg.expires_on))
unfolding changes
changes-nil_iff sw arg = ground (
  arith,
  eq_iff arg.payee sw.payee,
  eqb_ℤ_iff arg.amount sw.amount,
  eq_iff (or_empty sw.description) (or_empty arg.description),
  same_time_iff sw.expires_on arg.expires_on,
)

-- An id that a link may be given: letters, digits, - and _, at most 64 of them, and none of the
-- paths that the site itself uses.
abbrev pub IsLinkId : String → Type 0
IsLinkId id =
    (every is_id_char id ≡ true)
    × (1 ≤ len id)
    × (len id ≤ 64)
    × (is_reserved reserved_ids id ≡ false)

valid_id_iff :
    (id : String)
    → (valid_id id ≡ true) ↔ ((every is_id_char id ≡ true) × (1 ≤ len id) × (len id ≤ 64))
unfolding valid_id
valid_id_iff id = ground arith

valid_id-nonempty : (id : String) → valid_id id ≡ true → (id == "") ≡ false
unfolding valid_id
valid_id-nonempty id h = elim (Bool-cases (id == "")) [
  | inl blank ↦ elim (false_of (subst (λ i. valid_id i ≡ true) ((eq_iff id "").0 blank) h)) [ ]
  | inr named ↦ named
]
  where
    false_of : valid_id "" ≡ true → ⊥
    false_of e = ground arith

-- An amount that the column holds: no less than 0 and less than 2^31.
abbrev pub IsAmount : ℤ → Type 0
IsAmount n = (k : ℕ) × (n ≡ pos k) × (k < 2 ^ 31)

module _ (s : Server) where
  form_fault_iff : (l : AdminLink) → (form_fault s l ≡ none) ↔ (IsLinkId l.id × (l.payee ≢ ""))
  unfolding form_fault
  form_fault_iff l = ground (arith, valid_id_iff l.id, valid_id-nonempty l.id, eq_iff l.payee "")

  -- The expiry that an edit may leave a link with: none, the one it had, or one in the future.
  abbrev pub MayExpire : Option Time → Time → Option Time → Type 0
  MayExpire old now new = (new ≡ none) ⊎ (new ≡ old) ⊎ ((t : Time) × (new ≡ some t) × (now < t))

  new_expiry_sound :
      (old : Option Time) (now : Time) (read : Option Time) (new : Option Time)
      → new_expiry s old now read ≡ ok new
      → MayExpire old now new
  new_expiry_sound old now none new h = ground arith
  new_expiry_sound old now (some t) new h = ground arith

  form_expiry_sound :
      (old : Option Time) (now : Time) (text : String) (new : Option Time)
      → form_expiry s old now text ≡ ok new
      → MayExpire old now new
  form_expiry_sound old now text new h =
      ground (arith, new_expiry_sound old now (s.parse_rfc3339 text) new)

  form_amount_sound :
      (text : String) (n : ℤ) → form_amount s (parse_int 31 text) ≡ ok n → IsAmount n
  form_amount_sound text n h = of_read (parse_int 31 text) refl h
    where
      of_read : (o : Option ℤ) → parse_int 31 text ≡ o → form_amount s o ≡ ok n → IsAmount n
      of_read none e h = ground arith
      of_read (some (negsuc k)) e h = ground arith
      of_read (some (pos k)) e h =
          let fits = parse_int-bound 31 text k e in
          let same : to_int32 (pos k) ≡ n = ground arith in
          (k, sym same ∙ to_int32-pos k fits, fits)

  -- An edit that the form may make: what the form asks for, with a usable id and a payee, an
  -- amount that the column holds, and an expiry that is not moved into the past.
  pub record IsEdit (l : AdminLink) (old : Option Time) (now : Time) (arg : UpdateSwoshParams)
      : Type 0 where
    pub row : arg.id ≡ l.original_id
    pub new_id : arg.new_id ≡ l.id
    pub usable : IsLinkId l.id
    pub payee : arg.payee ≡ l.payee
    pub payee_given : l.payee ≢ ""
    pub amount : IsAmount arg.amount
    pub read : form_amount s (parse_int 31 l.amount) ≡ ok arg.amount
    pub description :
        arg.description ≡ (if trim_space l.description == "" then none else some l.description)
    pub expiry : MayExpire old now arg.expires_on

  -- An edit that `params` lets through is of the form's link, gives it the id of the form, which
  -- has 1 to 64 letters, digits, - and _ and is not one of the site's paths, the payee of the
  -- form, which is not empty, the amount of the form, which is from 0 to 2^31 - 1, the description
  -- of the form or none if that is blank, and an expiry that is none, the old one, or after now.
  pub params-IsEdit :
      (l : AdminLink) (sw : Swosh) (now : Time) (arg : UpdateSwoshParams)
      → params s l sw now ≡ ok arg
      → IsEdit l sw.expires_on now arg
  unfolding params
  params-IsEdit l sw now arg h = of_fault (form_fault s l) refl h
    where
      of_expiry :
          (amount : ℤ) (e : Result String (Option Time))
          → form_fault s l ≡ none
          → form_amount s (parse_int 31 l.amount) ≡ ok amount
          → form_expiry s sw.expires_on now l.expires_on ≡ e
          → with_expiry s l amount e ≡ ok arg
          → IsEdit l sw.expires_on now arg
      of_expiry amount (err msg) fine read at_expiry h = ground arith
      of_expiry amount (ok new) fine read at_expiry h =
          let same : edit_of s l amount new ≡ arg = ground arith in
          let (usable, payee) = (form_fault_iff l).0 fine in
          rw (← same) (record {
            row = refl;
            new_id = refl;
            usable = usable;
            payee = refl;
            payee_given = payee;
            amount = form_amount_sound l.amount amount read;
            read = read;
            description = refl;
            expiry = form_expiry_sound sw.expires_on now l.expires_on new at_expiry;
          })

      of_amount :
          (a : Result String ℤ)
          → form_fault s l ≡ none
          → form_amount s (parse_int 31 l.amount) ≡ a
          → with_amount s l sw.expires_on now a ≡ ok arg
          → IsEdit l sw.expires_on now arg
      of_amount (err msg) fine read h = ground arith
      of_amount (ok amount) fine read h = of_expiry amount _ fine read refl h

      of_fault :
          (f : Option String)
          → form_fault s l ≡ f
          → unless_fault s l sw.expires_on now f ≡ ok arg
          → IsEdit l sw.expires_on now arg
      of_fault (some msg) at_fault h = ground arith
      of_fault none at_fault h = of_amount _ at_fault refl h

  -- A time is written and read back to the second.
  abbrev pub ReadsBack : Option Time → Type 0
  ReadsBack none = Unit
  ReadsBack (some t) = (s.rfc3339 t ≢ "") × (s.parse_rfc3339 (s.rfc3339 t) ≡ some (t - t % second))

  form_expiry-time_text :
      (old : Option Time) (now : Time)
      → ReadsBack old
      → form_expiry s old now (time_text s old) ≡ ok old
  form_expiry-time_text none now h = ground arith
  form_expiry-time_text (some t) now h = rw h.1 (ground (arith, eq_iff (s.rfc3339 t) "", h.0))

  form_amount-itoa : (a : ℤ) → IsAmount a → form_amount s (parse_int 31 (itoa a)) ≡ ok a
  form_amount-itoa a (k, e, fits) =
      rw e (rw (parse_int-itoa_pos 31 k fits) (ground (arith, to_int32-pos k fits)))

  -- A message that is not blank.
  abbrev pub IsShown : Option String → Type 0
  IsShown none = Unit
  IsShown (some m) = trim_space m ≢ ""

  kept_description :
      (d : Option String)
      → IsShown d
      → (if trim_space (or_empty d) == "" then none else some (or_empty d)) ≡ d
  kept_description none h = rw (trim_space_eq "") refl
  kept_description (some m) h = ground (arith, eq_iff (trim_space m) "")

  -- `params` lets the form of a link through, as it is shown, at any time, as an edit that makes of
  -- the link what it is and of which `changes` logs nothing, if the link has a usable id, a payee,
  -- an amount from 0 to 2^31 - 1 and no blank description, and the expiry's text is not empty and
  -- reads back to the second.
  pub params-admin_link_of :
      (sw : Swosh) (p : Principal) (now : Time)
      → IsLinkId sw.id
      → sw.payee ≢ ""
      → IsAmount sw.amount
      → IsShown sw.description
      → ReadsBack sw.expires_on
      → (arg : UpdateSwoshParams) × (params s (admin_link_of s sw p) sw now ≡ ok arg)
        × (arg.id ≡ sw.id)
        × (arg.new_id ≡ sw.id)
        × (edit arg sw ≡ sw)
        × (changes sw arg ≡ [])
  unfolding params admin_link_of
  params-admin_link_of sw p now id payee amount shown times =
      let l = admin_link_of s sw p in
      let arg = edit_of s l sw.amount sw.expires_on in
      let kept = kept_description sw.description shown in
      (
        arg,
        ap (unless_fault s l sw.expires_on now) ((form_fault_iff l).1 (id, payee))
            ∙ ap (with_amount s l sw.expires_on now) (form_amount-itoa sw.amount amount)
            ∙ ap (with_expiry s l sw.amount) (form_expiry-time_text sw.expires_on now times),
        refl,
        refl,
        ap (λ d. record sw { description = d }) kept,
        (changes-nil_iff sw arg).1 (refl, refl, sym (ap or_empty kept), refl),
      )
