-- ===== src/Web/Admin/Sent.antt =====
-- internal/web/admin.go: the form that `adminSingle` shows, sent back to `adminUpdate`.
use swosh.Common.Text.{or_empty, is_space, every-weaken, trim_space, trim_space-stays}
use swosh.Common.{
  ℕ, ◌+◌, ◌≤◌, String, ◌≡◌, refl, sym, ap, ◌∙◌, subst, ◌≢◌, true, false, not, some, [], List, arith,
  ◌==◌, eq_iff, eq_refl, eqb, ok,
}
use swosh.Common.Int.{pos}
use swosh.Common.Decimal.{itoa, is_digit, every-itoa}
use swosh.Db
use swosh.Db.{Swosh, DbError, UpdateSwoshParams, find_link, edit, edit_links, count_links}
use swosh.Db.Keys.{IsKeyed, find_link-id}
use swosh.Db.Rename.{edit_links-same, count_links-found}
use swosh.World.{World, now}
use swosh.World.Store
use swosh.Web.Http.{AdminLink, Request, Response, redirect_to}
use swosh.Web.Server.{Server}
use swosh.Web.Authn.{Principal}
use swosh.Web.Admin.{is_id_char, time_text, admin_link_of, params, changes}
use swosh.Web.Admin.Form.{IsLinkId, IsAmount, IsShown, ReadsBack, params-admin_link_of}
use swosh.Web.Admin.Handlers.{sent_form, save, is_mismatch, admin_update}

is_id_char-is_space : (c : ℕ) → is_id_char c ≡ true → not (is_space c) ≡ true
unfolding is_space
is_id_char-is_space c h = ground arith

is_digit-is_space : (c : ℕ) → is_digit c ≡ true → not (is_space c) ≡ true
unfolding is_space
is_digit-is_space c h = ground arith

trim_space-id : (id : String) → IsLinkId id → trim_space id ≡ id
trim_space-id id h = trim_space-stays id (every-weaken is_id_char _ id is_id_char-is_space h.0)

trim_space-itoa : (n : ℕ) → trim_space (itoa (pos n)) ≡ itoa (pos n)
trim_space-itoa n =
    trim_space-stays (itoa (pos n)) (every-weaken is_digit _ _ is_digit-is_space (every-itoa n))

-- The fields of the form are sent with the values that they were shown with.
pub record IsSentBack (r : Request) (l : AdminLink) : Type 0 where
  pub original_id : r.post_form "originalId" ≡ some l.original_id
  pub id : r.post_form "id" ≡ some l.id
  pub payee : r.post_form "payee" ≡ some l.payee
  pub amount : r.post_form "amount" ≡ some l.amount
  pub description : r.post_form "description" ≡ some l.description
  pub expires_on : r.post_form "expiresOn" ≡ some l.expires_on

-- No white space stands around a text.
abbrev pub IsTrimmed : String → Type 0
IsTrimmed t = trim_space t ≡ t

module _ (s : Server) where
  -- A link that the form can keep: its id is usable, its payee is given, with no space around it,
  -- its amount is from 0 to 2^31 - 1, its description is not blank, and the text of its expiry is
  -- not empty, has no space around it, and reads back to the second.
  pub record IsKeepable (sw : Swosh) : Type 0 where
    pub id : IsLinkId sw.id
    pub payee : sw.payee ≢ ""
    pub payee_trimmed : IsTrimmed sw.payee
    pub amount : IsAmount sw.amount
    pub description : IsShown s sw.description
    pub expiry : ReadsBack s sw.expires_on
    pub expiry_trimmed : IsTrimmed (time_text s sw.expires_on)

  -- `adminUpdate` makes of a form that was sent back the form that was shown.
  sent_form-admin_link_of :
      (r : Request) (sw : Swosh) (p : Principal)
      → IsKeepable sw
      → IsSentBack r (admin_link_of s sw p)
      → sent_form s r sw p ≡ admin_link_of s sw p
  unfolding sent_form admin_link_of
  sent_form-admin_link_of r sw p k h =
      rw
        (
          h.id,
          h.payee,
          h.amount,
          h.description,
          h.expires_on,
          trim_space-id sw.id k.id,
          k.payee_trimmed,
          k.expiry_trimmed,
        )
        (rw k.amount.1 (rw (trim_space-itoa k.amount.0) refl))

  -- A kept row is written, and counted.
  update_swosh-same :
      (arg : UpdateSwoshParams) (sw : Swosh) (table : List Swosh)
      → IsKeyed table
      → find_link arg.id table ≡ some sw
      → arg.new_id ≡ arg.id
      → edit arg sw ≡ sw
      → (n : ℕ) × (Db.update_swosh arg table ≡ (ok n, table)) × (1 ≤ n)
  unfolding Db.update_swosh
  update_swosh-same arg sw table keyed found same kept = (
    count_links (λ t. t.id == arg.id) table,
    rw (found, Db.update_swosh)
        (rw ((eq_iff arg.new_id arg.id).1 same)
          (rw (edit_links-same arg sw table keyed found kept) refl)),
    count_links-found arg.id sw table found,
  )

  -- What `save` makes of an edit that keeps its row.
  save-same :
      (b : Response) (r : Request) (p : Principal) (form : AdminLink) (arg : UpdateSwoshParams)
      (sw : Swosh) (w : World)
      → IsKeyed w.links
      → find_link arg.id w.links ≡ some sw
      → arg.new_id ≡ arg.id
      → edit arg sw ≡ sw
      → s.outside.down w.statements ≡ false
      → ((save s b r p form (ok arg) w).0.status ≡ 303)
        × ((save s b r p form (ok arg) w).1.links ≡ w.links)
  unfolding Store.update_swosh redirect_to
  save-same b r p form arg sw w keyed found same kept up =
      let (n, done, some_row) = update_swosh-same arg sw w.links keyed found same kept in
      let counted : eqb n 0 ≡ false = ground arith in
      rw (up, Store.update_swosh) (rw (done, Store.update_swosh) (rw counted (refl, refl)))

  -- The form of a link, sent back to the link's path as it was shown, is let through at whatever
  -- time the clock gives: `adminUpdate` answers 303 and leaves the links as they are, and of the
  -- edit `changes` logs nothing, if the ids are unique, the two statements do not fail, and the
  -- link can be kept: its id is usable, its payee is given, with no space around it, its amount is
  -- from 0 to 2^31 - 1, its description is not blank, and the text of its expiry is not empty, has
  -- no space around it, and reads back to the second.
  pub admin_update-sent_form :
      (b : Response) (r : Request) (p : Principal) (sw : Swosh) (w : World)
      → IsKeyed w.links
      → find_link r.path_id w.links ≡ some sw
      → IsKeepable sw
      → IsSentBack r (admin_link_of s sw p)
      → s.outside.down w.statements ≡ false
      → s.outside.down (w.statements + 1) ≡ false
      → (arg : UpdateSwoshParams) × (params s (sent_form s r sw p) sw (s.outside.clock w.readings)
          ≡ ok arg)
        × (changes sw arg ≡ [])
        × ((admin_update s b r p w).0.status ≡ 303)
        × ((admin_update s b r p w).1.links ≡ w.links)
  unfolding admin_update Store.get_swosh now Db.get_swosh admin_link_of
  admin_update-sent_form b r p sw w keyed found k h up up' =
      let t = s.outside.clock w.readings in
      let shown = sent_form-admin_link_of r sw p k h in
      let (arg, let_through, id, new_id, kept, quiet) =
        params-admin_link_of s sw p t k.id k.payee k.amount k.description k.expiry in
      let edit_made = ap (λ l. params s l sw t) shown ∙ let_through in
      let own : sw.id ≡ r.path_id = find_link-id r.path_id w.links sw found in
      let read : Db.get_swosh r.path_id w.links ≡ ok sw = rw (found, Db.get_swosh) refl in
      let w' = record w { statements = w.statements + 1; readings = w.readings + 1 } in
      let same : is_mismatch s (or_empty (r.post_form "originalId")) sw.id ≡ false =
        rw h.original_id (rw eq_refl (ground arith)) in
      let (status, links) =
        save-same b r p (sent_form s r sw p) arg sw w' keyed
          (subst (λ i. find_link i w.links ≡ some sw) (sym own ∙ sym id) found) (new_id ∙ sym id)
          kept up' in
      (
        arg,
        edit_made,
        quiet,
        rw (up, admin_update) (rw read (rw same (rw edit_made status))),
        rw (up, admin_update) (rw read (rw same (rw edit_made links))),
      )
