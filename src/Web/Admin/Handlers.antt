-- ===== src/Web/Admin/Handlers.antt =====
-- internal/web/admin.go: the handlers of the admin pages.
use swosh.Common.Text.{or_empty}
use swosh.Common.{
  ℕ, code, String, Bool, not, ◌&&◌, ◌||◌, Option, none, some, List, [], ◌∷◌, ◌==◌, ltb, eqb,
  if◌then◌else◌, Result, ok, err, length,
}
use swosh.Common.Text.{trim_space}
use swosh.Db.{Swosh, DbError, no_rows, unique_violation, UpdateSwoshParams}
use swosh.World.{Action, pure, ◌>>=◌, now}
use swosh.World.Store
use swosh.Auth.Users.{update, delete}
use swosh.Web.Http.{
  Request, Response, AdminLink, admin_html, admin_single_html, http_error, redirect_to,
}
use swosh.Web.Server.{Server, render, render_status, server_error}
use swosh.Web.Authn.{Principal, AdminHandler, has, admin}
use swosh.Web.Admin.{new_admin_page, admin_link_of, params}
use Prim.Native.String.{◌++◌ as ◌<>◌}

abbrev pub max_delete_many : ℕ
max_delete_many = 1000

module _ (s : Server) where
  abbrev links_of : Principal → List Swosh → List AdminLink
  links_of p [] = []
  links_of p (sw ∷ rest) = admin_link_of s sw p ∷ links_of p rest

  abbrev pub listed : Response → Request → Principal → Result DbError (List Swosh) → Response
  listed w r p (err e) = server_error s w
  listed w r p (ok links) =
      render s r
        (admin_html (record (new_admin_page s p) {
          count = length links;
          can_delete = has p delete;
          links = links_of p links;
        }))
        w

  unfoldable pub admin_list : AdminHandler s
  unfolding Store.list_swoshes
  admin_list w r p = do links ← Store.list_swoshes s.outside; pure (listed w r p links)

  -- The text of a missing link's page.
  abbrev pub no_link : String → String
  no_link id = ◌<>◌ "There is no link with id " (◌<>◌ (s.quote id) ".")

  abbrev pub failed_page : Response → Request → Principal → ℕ → String → List AdminLink → Response
  failed_page w r p code msg links =
      render_status s r code
        (admin_single_html (record (new_admin_page s p) { error = msg; links = links })) w

  -- What `adminLookup` makes of the row that it read: the link, or the answer that is written.
  abbrev pub looked_up :
      Response → Request → Principal → Result DbError Swosh → Result Response Swosh
  looked_up w r p (err no_rows) = err (failed_page w r p 404 (no_link r.path_id) [])
  looked_up w r p (err e) = err (server_error s w)
  looked_up w r p (ok sw) = ok sw

  abbrev pub single : Response → Request → Principal → Result Response Swosh → Response
  single w r p (err resp) = resp
  single w r p (ok sw) =
      render s r
        (admin_single_html (record (new_admin_page s p) { links = admin_link_of s sw p ∷ [] })) w

  unfoldable pub admin_single : AdminHandler s
  unfolding Store.get_swosh
  admin_single w r p = do
    found ← Store.get_swosh s.outside r.path_id
    pure (single w r p (looked_up w r p found))

  abbrev pub sent_expiry : Option String → String → String
  sent_expiry none old = old
  sent_expiry (some t) old = trim_space t

  -- The form as it was sent; without the field expiresOn the link keeps its expiry.
  unfoldable pub sent_form : Request → Swosh → Principal → AdminLink
  unfolding admin_link_of trim_space
  sent_form r sw p = record (admin_link_of s sw p) {
    id = trim_space (or_empty (r.post_form "id"));
    payee = trim_space (or_empty (r.post_form "payee"));
    amount = trim_space (or_empty (r.post_form "amount"));
    description = or_empty (r.post_form "description");
    expires_on = sent_expiry (r.post_form "expiresOn") (admin_link_of s sw p).expires_on;
  }

  abbrev pub updated :
      Response → Request → Principal → AdminLink → UpdateSwoshParams → Result DbError ℕ → Response
  updated w r p form arg (err unique_violation) =
      failed_page w r p 409
        (◌<>◌ "There is already a link with id " (◌<>◌ (s.quote arg.new_id) ". Pick another id."))
        (form ∷ [])
  updated w r p form arg (err e) = server_error s w
  updated w r p form arg (ok n) =
      if eqb n 0
      then failed_page w r p 404 (no_link arg.id) (form ∷ [])
      else redirect_to r "/admin" 303 w

  abbrev pub save :
      Response → Request → Principal → AdminLink → Result String UpdateSwoshParams → Action Response
  save w r p form (err msg) = pure (failed_page w r p 400 msg (form ∷ []))
  save w r p form (ok arg) = do
    n ← Store.update_swosh s.outside arg
    pure (updated w r p form arg n)

  -- The form is for another link than the URL.
  abbrev pub is_mismatch : String → String → Bool
  is_mismatch orig id = not (orig == "") && not (orig == id)

  abbrev pub edit_link : Response → Request → Principal → Result Response Swosh → Action Response
  edit_link w r p (err resp) = pure resp
  edit_link w r p (ok sw) =
      if is_mismatch (or_empty (r.post_form "originalId")) sw.id
      then pure (http_error "originalId does not match the URL" 400 w)
      else (do t ← now s.outside; save w r p (sent_form r sw p) (params s (sent_form r sw p) sw t))

  unfoldable pub admin_update : AdminHandler s
  unfolding Store.get_swosh now
  admin_update w r p = do
    found ← Store.get_swosh s.outside r.path_id
    edit_link w r p (looked_up w r p found)

  abbrev pub deleted : Response → Request → Result DbError ℕ → Response
  deleted w r (err e) = server_error s w
  deleted w r (ok n) = redirect_to r "/admin" 303 w

  unfoldable pub admin_delete : AdminHandler s
  unfolding Store.delete_swosh
  admin_delete w r p = do n ← Store.delete_swosh s.outside r.path_id; pure (deleted w r n)

  abbrev pub deleted_many : Response → Result DbError (List String) → Response
  deleted_many w (err e) = server_error s w
  deleted_many w (ok ids) = record w { status = 204 }

  abbrev pub delete_ids : Response → Option (List String) → Action Response
  delete_ids w none = pure (http_error "Body must be JSON like {\"ids\": [\"abc123\"]}" 400 w)
  delete_ids w (some ids) =
      if eqb (length ids) 0 || ltb max_delete_many (length ids)
      then pure (http_error "Name between 1 and 1000 ids" 400 w)
      else (do gone ← Store.delete_swoshes s.outside ids; pure (deleted_many w gone))

  unfoldable pub admin_delete_many : AdminHandler s
  unfolding Store.delete_swoshes http_error
  admin_delete_many w r p = delete_ids w r.ids_body

-- The routes of the admin pages in `handler`; `GET /admin/` and `DELETE /admin/` are as without
-- the slash.
pub data AdminRoute : Type 0 where
  list_route single_route update_route delete_route delete_many_route : AdminRoute

module _ (s : Server) where
  -- The handler that `handler` sets for a route, behind `admin` with the route's authority.
  unfoldable pub serve_admin : AdminRoute → Request → Action Response
  unfolding admin admin_list admin_single admin_update admin_delete admin_delete_many
  serve_admin list_route = admin s "" (admin_list s)
  serve_admin single_route = admin s "" (admin_single s)
  serve_admin update_route = admin s update (admin_update s)
  serve_admin delete_route = admin s delete (admin_delete s)
  serve_admin delete_many_route = admin s delete (admin_delete_many s)
