-- ===== src/Web/Admin/Effects.antt =====
-- What the handlers of internal/web/admin.go do to the links.
use swosh.Common.Text.{or_empty}
use swosh.Common.{
  ◌+◌, ◌≤◌, code, String, ◌≡◌, refl, ◌∙◌, inl, inr, false, not, ◌||◌, Option, none, some, List,
  arith, ◌==◌, eq_iff, ltb, eqb, if◌then◌else◌, Bool-cases, Option-cases, Result, ok, err, length,
  contains,
}
use swosh.Db
use swosh.Db.{
  Time, Swosh, DbError, no_rows, unique_violation, failure, find_link, keep_links, edit_links,
  UpdateSwoshParams,
}
use swosh.Db.Keys.{IsKeyed, find_link-keep_links, keep_links-IsKeyed, find_link-id}
use swosh.Db.Rename.{update_swosh-IsKeyed}
use swosh.World.{World, now}
use swosh.World.Store
use swosh.Web.Http.{AdminLink, Request, Response, new_response, redirect_to, set_header}
use swosh.Web.Server.{Server}
use swosh.Web.Authn.{Principal, AdminHandler, admin}
use swosh.Web.Authn.Guard.{admin-Guarded}
use swosh.Web.Admin.Handlers.{
  AdminRoute, list_route, single_route, update_route, delete_route, delete_many_route, serve_admin,
  admin_list, admin_single, admin_update, admin_delete, admin_delete_many, delete_ids, edit_link,
  save, looked_up, is_mismatch,
}

-- A handler under which ids stay unique and no user changes.
abbrev pub Keeps : World → World → Type 0
Keeps w w' = (IsKeyed w.links → IsKeyed w'.links) × (w'.users ≡ w.users)

-- The row that a lookup gives after the rows with the given ids have been deleted.
abbrev pub unnamed : List String → Option Swosh → Option Swosh
unnamed ids none = none
unnamed ids (some s) = if contains ids s.id then none else some s

find_link-unnamed :
    (ids : List String) (k : String) (table : List Swosh)
    → IsKeyed table
    → find_link k (keep_links (λ s. not (contains ids s.id)) table)
      ≡ unnamed ids (find_link k table)
find_link-unnamed ids k table h =
    ground (arith, find_link-keep_links (λ s. not (contains ids s.id)) k table h)

find_link-delete :
    (id k : String) (table : List Swosh)
    → IsKeyed table
    → find_link k (keep_links (λ s. not (s.id == id)) table)
      ≡ (if id == k then none else find_link k table)
find_link-delete id k table h = elim (Option-cases (find_link k table)) [
  | inl absent ↦ ground (arith, find_link-keep_links (λ s. not (s.id == id)) k table h)
  | inr (t, found) ↦ ground (
    arith,
    find_link-keep_links (λ s. not (s.id == id)) k table h,
    find_link-id k table t found,
    eq_iff t.id id,
    eq_iff id k,
  )
]

module _ (s : Server) where
  delete_many-Keeps :
      (w : Response) (b : Option (List String)) (v : World) → Keeps v (delete_ids s w b v).1
  unfolding Store.delete_swoshes Db.delete_swoshes
  delete_many-Keeps w none v = (λ h. h, refl)
  delete_many-Keeps w (some ids) v =
      elim (Bool-cases (eqb (length ids) 0 || ltb 1000 (length ids))) [
        | inl bad ↦ rw bad (λ h. h, refl)
        | inr fine ↦ rw fine (elim (Bool-cases (s.outside.down v.statements)) [
          | inl fails ↦ rw fails (λ h. h, refl)
          | inr runs ↦ rw runs (keep_links-IsKeyed _ v.links, refl)
        ])
      ]

  -- If the statement does not fail, `adminDelete` on links with unique ids answers 303, the link
  -- with the id of the path is gone, and every other link is as before.
  pub admin_delete-deletes :
      (b : Response) (r : Request) (p : Principal) (w : World)
      → IsKeyed w.links
      → s.outside.down w.statements ≡ false
      → ((admin_delete s b r p w).0.status ≡ 303)
        × ((k : String)
            → find_link k (admin_delete s b r p w).1.links
              ≡ (if r.path_id == k then none else find_link k w.links))
  unfolding admin_delete Store.delete_swosh Db.delete_swosh redirect_to
  admin_delete-deletes b r p w keyed up =
      rw (up, admin_delete) (refl, λ k. find_link-delete r.path_id k w.links keyed)

  -- If the body names 1 to 1000 ids and the statement does not fail, `adminDeleteMany` on links
  -- with unique ids answers 204, and exactly the links with the named ids are gone.
  pub admin_delete_many-deletes :
      (b : Response) (r : Request) (p : Principal) (ids : List String) (w : World)
      → IsKeyed w.links
      → s.outside.down w.statements ≡ false
      → r.ids_body ≡ some ids
      → 1 ≤ length ids
      → length ids ≤ 1000
      → ((admin_delete_many s b r p w).0.status ≡ 204)
        × ((k : String)
            → find_link k (admin_delete_many s b r p w).1.links ≡ unnamed ids (find_link k w.links))
  unfolding admin_delete_many Store.delete_swoshes Db.delete_swoshes
  admin_delete_many-deletes b r p ids w keyed up body lo hi =
      let few : (eqb (length ids) 0 || ltb 1000 (length ids)) ≡ false = ground arith in
      rw (body, admin_delete_many, few, up) (refl, λ k. find_link-unnamed ids k w.links keyed)

  update-Keeps :
      (arg : UpdateSwoshParams) (v : World) → Keeps v (Store.update_swosh s.outside arg v).1
  unfolding Store.update_swosh
  update-Keeps arg v = elim (Bool-cases (s.outside.down v.statements)) [
    | inl fails ↦ rw fails (λ h. h, refl)
    | inr runs ↦ rw runs (update_swosh-IsKeyed arg v.links, refl)
  ]

  save-Keeps :
      (b : Response) (r : Request) (p : Principal) (form : AdminLink)
      (o : Result String UpdateSwoshParams) (v : World)
      → Keeps v (save s b r p form o v).1
  save-Keeps b r p form (err msg) v = (λ h. h, refl)
  save-Keeps b r p form (ok arg) v = update-Keeps arg v

  edit_link-Keeps :
      (b : Response) (r : Request) (p : Principal) (o : Result Response Swosh) (v : World)
      → Keeps v (edit_link s b r p o v).1
  unfolding now
  edit_link-Keeps b r p (err resp) v = (λ h. h, refl)
  edit_link-Keeps b r p (ok sw) v =
      elim (Bool-cases (is_mismatch s (or_empty (r.post_form "originalId")) sw.id)) [
        | inl other ↦ rw other (λ h. h, refl)
        | inr same ↦ rw same (save-Keeps b r p _ _ (record v { readings = v.readings + 1 }))
      ]

  -- A handler that keeps ids unique and users as they are.
  abbrev pub IsKeeping : AdminHandler s → Type 0
  IsKeeping h = (b : Response) (r : Request) (p : Principal) (w : World) → Keeps w (h b r p w).1

  get-Keeps :
      (id : String) (w : World)
      → ((Store.get_swosh s.outside id w).1.links ≡ w.links)
        × ((Store.get_swosh s.outside id w).1.users ≡ w.users)
  unfolding Store.get_swosh
  get-Keeps id w = ground arith

  admin_update-IsKeeping : IsKeeping (admin_update s)
  unfolding admin_update
  admin_update-IsKeeping b r p w =
      let (links, users) = get-Keeps r.path_id w in
      let (keyed, same) =
        edit_link-Keeps b r p (looked_up s b r p (Store.get_swosh s.outside r.path_id w).0)
          (Store.get_swosh s.outside r.path_id w).1 in
      (λ h. keyed (rw links h), same ∙ users)

  admin_delete-IsKeeping : IsKeeping (admin_delete s)
  unfolding admin_delete Store.delete_swosh Db.delete_swosh
  admin_delete-IsKeeping b r p w = elim (Bool-cases (s.outside.down w.statements)) [
    | inl fails ↦ rw (fails, admin_delete) (λ h. h, refl)
    | inr runs ↦ rw (runs, admin_delete) (keep_links-IsKeyed _ w.links, refl)
  ]

  admin_delete_many-IsKeeping : IsKeeping (admin_delete_many s)
  unfolding admin_delete_many
  admin_delete_many-IsKeeping b r p w = delete_many-Keeps b r.ids_body w

  admin_single-IsKeeping : IsKeeping (admin_single s)
  unfolding admin_single
  admin_single-IsKeeping b r p w =
      let (links, users) = get-Keeps r.path_id w in (λ h. rw links h, users)

  admin_list-IsKeeping : IsKeeping (admin_list s)
  unfolding admin_list Store.list_swoshes
  admin_list-IsKeeping b r p w = ground arith

  admin-Keeps :
      (authority : String) (h : AdminHandler s)
      → IsKeeping h
      → (r : Request) (w : World) → Keeps w (admin s authority h r w).1
  admin-Keeps authority h keeping r w = elim (admin-Guarded s authority h r w) [
    | inl (p, w', same, admitted, e) ↦ rw e (
        let (keyed, users) = keeping (set_header "Cache-Control" "no-store" new_response) r p w' in
        (λ k. keyed (rw same.links k), users ∙ same.users))
    | inr (code, same) ↦ (λ k. rw same.links k, same.users)
  ]

  serve_admin-Keeps :
      (route : AdminRoute) (r : Request) (w : World) → Keeps w (serve_admin s route r w).1
  unfolding serve_admin
  serve_admin-Keeps list_route = admin-Keeps "" (admin_list s) admin_list-IsKeeping
  serve_admin-Keeps single_route = admin-Keeps "" (admin_single s) admin_single-IsKeeping
  serve_admin-Keeps update_route = admin-Keeps "UPDATE" (admin_update s) admin_update-IsKeeping
  serve_admin-Keeps delete_route = admin-Keeps "DELETE" (admin_delete s) admin_delete-IsKeeping
  serve_admin-Keeps delete_many_route =
      admin-Keeps "DELETE" (admin_delete_many s) admin_delete_many-IsKeeping

  -- On every admin route, whatever the request is and whatever statements fail, no two links share
  -- an id afterwards if none did before, and no user changes.
  pub serve_admin-IsKeyed :
      (route : AdminRoute) (r : Request) (w : World)
      → IsKeyed w.links
      → IsKeyed (serve_admin s route r w).1.links × ((serve_admin s route r w).1.users ≡ w.users)
  serve_admin-IsKeyed route r w h =
      let (keyed, users) = serve_admin-Keeps route r w in (keyed h, users)
