-- ===== src/Web/Routes/Secured/Admin.antt =====
-- Every admin page of internal/web has the headers of `securityHeaders`.
use swosh.Common.{
  ℕ, ◌+◌, String, refl, inl, inr, not, ◌&&◌, ◌||◌, Option, none, some, List, ◌==◌, ltb, eqb,
  Bool-cases, Result, ok, err, length,
}
use swosh.Db.{Swosh, UpdateSwoshParams, DbError, no_rows, failure, unique_violation}
use swosh.World.{World, now}
use swosh.World.Store
use swosh.Auth.Users.{LoginError, bad_credentials, database, role_admin, update, delete}
use swosh.Swish.Qr.{Lru, Swish}
use swosh.Common.Text.{or_empty, has_text}
use swosh.Web.Http.{Request, Response, AdminLink, new_response, same_origin}
use swosh.Web.Http.Secured.{
  IsSecured, new_response-IsSecured, set_header-IsSecured, http_error-IsSecured,
  redirect_to-IsSecured, same_headers-IsSecured,
}
use swosh.Web.Server.{Server}
use swosh.Web.Authn.{
  Principal, AdminHandler, challenge, login_required, has, csrf_ok, admit, admin, authenticate,
}
use swosh.Web.Admin.{params}
use swosh.Web.Admin.Handlers.{
  AdminRoute, list_route, single_route, update_route, delete_route, delete_many_route, listed,
  admin_list, looked_up, single, admin_single, sent_form, updated, save, is_mismatch, edit_link,
  admin_update, deleted, admin_delete, deleted_many, delete_ids, admin_delete_many, max_delete_many,
  serve_admin,
}
use swosh.Web.Routes.{Route, public_route, admin_route, Site, serve}
use swosh.Web.Routes.Secured.{render_status-IsSecured, serve_public-IsSecured}

module _ (s : Server) where
  -- The handler keeps the headers of the response that it gets.
  abbrev IsSecuring : AdminHandler s → Type 0
  IsSecuring h =
      (b : Response) (r : Request) (p : Principal) (w : World)
      → IsSecured b
      → IsSecured (h b r p w).0

  listed-IsSecured :
      (b : Response) (r : Request) (p : Principal) (o : Result DbError (List Swosh))
      → IsSecured b
      → IsSecured (listed s b r p o)
  listed-IsSecured b r p (err e) h = http_error-IsSecured _ 500 b h
  listed-IsSecured b r p (ok links) h = render_status-IsSecured s r 200 _ b h

  looked-IsSecured :
      (b : Response) (r : Request) (p : Principal) (o : Result DbError Swosh)
      → IsSecured b
      → IsSecured (single s b r p (looked_up s b r p o))
  looked-IsSecured b r p (err no_rows) h = render_status-IsSecured s r 404 _ b h
  looked-IsSecured b r p (err failure) h = http_error-IsSecured _ 500 b h
  looked-IsSecured b r p (err unique_violation) h = http_error-IsSecured _ 500 b h
  looked-IsSecured b r p (ok sw) h = render_status-IsSecured s r 200 _ b h

  updated-IsSecured :
      (b : Response) (r : Request) (p : Principal) (form : AdminLink) (arg : UpdateSwoshParams)
      (o : Result DbError ℕ)
      → IsSecured b
      → IsSecured (updated s b r p form arg o)
  updated-IsSecured b r p form arg (err unique_violation) h = render_status-IsSecured s r 409 _ b h
  updated-IsSecured b r p form arg (err no_rows) h = http_error-IsSecured _ 500 b h
  updated-IsSecured b r p form arg (err failure) h = http_error-IsSecured _ 500 b h
  updated-IsSecured b r p form arg (ok n) h = elim (Bool-cases (eqb n 0)) [
    | inl missing ↦ rw missing (render_status-IsSecured s r 404 _ b h)
    | inr done ↦ rw done (redirect_to-IsSecured r _ 303 b h)
  ]

  save-IsSecured :
      (b : Response) (r : Request) (p : Principal) (form : AdminLink)
      (o : Result String UpdateSwoshParams) (w : World)
      → IsSecured b
      → IsSecured (save s b r p form o w).0
  save-IsSecured b r p form (err msg) w h = render_status-IsSecured s r 400 _ b h
  save-IsSecured b r p form (ok arg) w h =
      updated-IsSecured b r p form arg (Store.update_swosh s.outside arg w).0 h

  edited-IsSecured :
      (b : Response) (r : Request) (p : Principal) (o : Result DbError Swosh) (w : World)
      → IsSecured b
      → IsSecured (edit_link s b r p (looked_up s b r p o) w).0
  unfolding now
  edited-IsSecured b r p (err no_rows) w h = render_status-IsSecured s r 404 _ b h
  edited-IsSecured b r p (err failure) w h = http_error-IsSecured _ 500 b h
  edited-IsSecured b r p (err unique_violation) w h = http_error-IsSecured _ 500 b h
  edited-IsSecured b r p (ok sw) w h =
      elim (Bool-cases (is_mismatch s (or_empty (r.post_form "originalId")) sw.id)) [
        | inl other ↦ rw other (http_error-IsSecured _ 400 b h)
        | inr same ↦ rw same (
            save-IsSecured b r p (sent_form s r sw p)
              (params s (sent_form s r sw p) sw (s.outside.clock w.readings))
              (record w { readings = w.readings + 1 }) h)
      ]

  admin_update-IsSecuring : IsSecuring (admin_update s)
  unfolding admin_update
  admin_update-IsSecuring b r p w h =
      let (found, w') = Store.get_swosh s.outside r.path_id w in edited-IsSecured b r p found w' h

  deleted-IsSecured :
      (b : Response) (r : Request) (o : Result DbError ℕ)
      → IsSecured b
      → IsSecured (deleted s b r o)
  deleted-IsSecured b r (err e) h = http_error-IsSecured _ 500 b h
  deleted-IsSecured b r (ok n) h = redirect_to-IsSecured r _ 303 b h

  deleted_many-IsSecured :
      (b : Response) (o : Result DbError (List String))
      → IsSecured b
      → IsSecured (deleted_many s b o)
  deleted_many-IsSecured b (err e) h = http_error-IsSecured _ 500 b h
  deleted_many-IsSecured b (ok ids) h = same_headers-IsSecured b _ refl h

  delete_ids-IsSecured :
      (b : Response) (o : Option (List String)) (w : World)
      → IsSecured b
      → IsSecured (delete_ids s b o w).0
  delete_ids-IsSecured b none w h = http_error-IsSecured _ 400 b h
  delete_ids-IsSecured b (some ids) w h =
      elim (Bool-cases (eqb (length ids) 0 || ltb max_delete_many (length ids))) [
        | inl wrong ↦ rw wrong (http_error-IsSecured _ 400 b h)
        | inr fine ↦ rw fine (deleted_many-IsSecured b (Store.delete_swoshes s.outside ids w).0 h)
      ]

  challenge-IsSecured : (w : Response) → IsSecured w → IsSecured (challenge s w)
  unfolding challenge
  challenge-IsSecured w h =
      http_error-IsSecured _ 401 _ (set_header-IsSecured "WWW-Authenticate" _ w refl h)

  login_required-IsSecured :
      (r : Request) (w : Response) → IsSecured w → IsSecured (login_required s r w)
  unfolding login_required
  login_required-IsSecured r w h =
      elim (Bool-cases (r.method == "GET" && has_text (r.header "Accept") "text/html")) [
        | inl browser ↦ rw browser (redirect_to-IsSecured r _ 302 w h)
        | inr other ↦ rw other (challenge-IsSecured w h)
      ]

  admit-IsSecured :
      (authority : String) (h : AdminHandler s) (r : Request) (b : Response)
      (o : Result LoginError (Option Principal)) (w : World)
      → IsSecuring h
      → IsSecured b
      → IsSecured (admit s authority h r b o w).0
  admit-IsSecured authority h r b (err bad_credentials) w keeps fine = challenge-IsSecured b fine
  admit-IsSecured authority h r b (err (database e)) w keeps fine =
      http_error-IsSecured _ 500 b fine
  admit-IsSecured authority h r b (ok none) w keeps fine = login_required-IsSecured r b fine
  admit-IsSecured authority h r b (ok (some p)) w keeps fine =
      elim (Bool-cases (not (has p role_admin) || not (authority == "") && not (has p authority))) [
        | inl lacks ↦ rw lacks (http_error-IsSecured _ 403 b fine)
        | inr may ↦ rw may (elim (Bool-cases (csrf_ok s r p.session)) [
          | inr forged ↦ rw forged (http_error-IsSecured _ 403 b fine)
          | inl sent ↦ rw sent (keeps b r p w fine)
        ])
      ]

  admin-IsSecured :
      (authority : String) (h : AdminHandler s) (r : Request) (w : World)
      → IsSecuring h
      → IsSecured (admin s authority h r w).0
  unfolding admin
  admin-IsSecured authority h r w keeps =
      let fine =
        set_header-IsSecured "Cache-Control" "no-store" new_response refl new_response-IsSecured in
      elim (Bool-cases (same_origin r)) [
        | inr other ↦ rw other (http_error-IsSecured _ 403 _ fine)
        | inl same ↦ rw same (
            admit-IsSecured authority h r _ (authenticate s r w).0 (authenticate s r w).1 keeps
              fine)
      ]

  serve_admin-IsSecured :
      (route : AdminRoute) (r : Request) (w : World) → IsSecured (serve_admin s route r w).0
  unfolding serve_admin admin_list admin_single admin_delete admin_delete_many
  serve_admin-IsSecured list_route r w =
      admin-IsSecured "" (admin_list s) r w
        (λ b r p w h. listed-IsSecured b r p (Store.list_swoshes s.outside w).0 h)
  serve_admin-IsSecured single_route r w =
      admin-IsSecured "" (admin_single s) r w
        (λ b r p w h. looked-IsSecured b r p (Store.get_swosh s.outside r.path_id w).0 h)
  serve_admin-IsSecured update_route r w =
      admin-IsSecured update (admin_update s) r w admin_update-IsSecuring
  serve_admin-IsSecured delete_route r w =
      admin-IsSecured delete (admin_delete s) r w
        (λ b r p w h. deleted-IsSecured b r (Store.delete_swosh s.outside r.path_id w).0 h)
  serve_admin-IsSecured delete_many_route r w =
      admin-IsSecured delete (admin_delete_many s) r w
        (λ b r p w h. delete_ids-IsSecured b r.ids_body w h)

  -- The response to every request, on every route and in every state, has the four headers of
  -- `securityHeaders` with their values.
  pub serve-IsSecured :
      (l : Lru) (swish : Swish) (route : Route) (r : Request) (site : Site s l swish)
      → IsSecured (serve s l swish route r site).0
  unfolding serve
  serve-IsSecured l swish (public_route route) r site =
      serve_public-IsSecured s l swish route r site
  serve-IsSecured l swish (admin_route route) r (w, c) = serve_admin-IsSecured route r w
