-- ===== src/Web/Routes/Secured.antt =====
-- Every page of internal/web has the headers of `securityHeaders`.
pub mod Admin
use swosh.Common.{
  ℕ, zero, suc, ◌+◌, ◌-◌, ◌*◌, ◌/◌, ◌%◌, ◌^◌, ◌≤◌, ◌<◌, Char, code, String, len, ◌≡◌, refl, sym, ap,
  ◌∙◌, subst, ◌≢◌, ◌↔◌, ◌⊎◌, inl, inr, Bool, true, false, not, ◌&&◌, ◌||◌, Option, none, some, List,
  [], ◌∷◌, ◌++◌, map, arith, ◌==◌, eq_iff, eq_refl, ltb, leb, eqb, if◌then◌else◌, ltb→lt, lt→ltb,
  leb→le, eqb_iff, Bool-cases, Option-cases, Result, ok, err, Result-cases, length, get_or, all,
  length-append, All, contains,
}
use swosh.Db.{Time, Swosh, DbError, no_rows, failure, unique_violation}
use swosh.World.{World, now, nonce}
use swosh.World.Store
use swosh.Auth.Users
use swosh.Auth.Users.{LoginError, bad_credentials, database}
use swosh.Db.{User}
use swosh.Swish.Qr.{Lru, Swish, QrClient, QrError}
use swosh.Common.Bytes.{Bytes}
use swosh.Web.I18n.{parse_lang, lang_code}
use swosh.Common.Text.{or_empty}
use swosh.Web.Create.{ValidationError, NewSwosh, CreateRequest, validate}
use swosh.Web.Http.{Request, Response, Page, new_response, same_origin}
use swosh.Web.Http.Secured.{
  IsSecured, new_response-IsSecured, set_header-IsSecured, add_header-IsSecured,
  same_headers-IsSecured, http_error-IsSecured, redirect_to-IsSecured, set_cookie-IsSecured,
}
use swosh.Web.Server.{Server, render_status, request_lang, request_theme, parse_theme}
use swosh.Web.Links.{unless_expired, found_link, lookup}
use swosh.Web.Login.{
  local_path, session_cookie_of, unix_epoch, choice_cookie, theme_text, no_store, login_form,
  logged_in, login, logout_form, logout, set_lang, set_theme,
}
use swosh.Web.Api.{create_failed, insert, insert_answer, validated, decoded, parsed, create}
use swosh.Web.Pages.{index, previewed, preview, redirected, redirect, qr_page, coded, qr}
use swosh.Web.Routes.{
  PublicRoute, Site, serve_public, index_route, login_form_route, login_route, logout_form_route,
  logout_route, lang_route, theme_route, create_route, preview_route, redirect_route, qr_route,
}

module _ (s : Server) where
  pub render_status-IsSecured :
      (r : Request) (code : ℕ) (p : Page) (w : Response)
      → IsSecured w
      → IsSecured (render_status s r code p w)
  unfolding render_status
  render_status-IsSecured r code p w h =
      elim (Bool-cases (s.executes (request_lang s r) (request_theme r) p)) [
        | inl shown ↦ rw shown (
            same_headers-IsSecured _ _ refl
              (add_header-IsSecured "Vary" _ _ (set_header-IsSecured "Content-Type" _ w refl h)))
        | inr fails ↦ rw fails (http_error-IsSecured _ 500 w h)
      ]

  no_store-IsSecured : IsSecured (no_store s)
  no_store-IsSecured =
      set_header-IsSecured "Cache-Control" _ new_response refl new_response-IsSecured

  logged_in-IsSecured :
      (r : Request) (next : String) (u : Result LoginError User) (w : World)
      → IsSecured (logged_in s r next u w).0
  unfolding now nonce
  logged_in-IsSecured r next (err bad_credentials) w =
      render_status-IsSecured r 401 _ (no_store s) no_store-IsSecured
  logged_in-IsSecured r next (err (database e)) w =
      http_error-IsSecured _ 500 (no_store s) no_store-IsSecured
  logged_in-IsSecured r next (ok u) w =
      redirect_to-IsSecured r _ 303 _
        (same_headers-IsSecured (no_store s) _ refl no_store-IsSecured)

  login-IsSecured : (r : Request) (w : World) → IsSecured (login s r w).0
  unfolding login
  login-IsSecured r w = elim (Bool-cases (same_origin r)) [
    | inr other ↦ rw other (http_error-IsSecured _ 403 (no_store s) no_store-IsSecured)
    | inl same ↦ rw same (
        let (u, w') =
          Users.login s.outside s.bcrypt (or_empty (r.post_form "username"))
            (or_empty (r.post_form "password")) w in
        logged_in-IsSecured r (local_path (or_empty (r.post_form "next"))) u w')
  ]

  logout-IsSecured : (r : Request) → IsSecured (logout s r)
  unfolding logout
  logout-IsSecured r = elim (Bool-cases (same_origin r)) [
    | inr other ↦ rw other (http_error-IsSecured _ 403 new_response new_response-IsSecured)
    | inl same ↦ rw same (
        redirect_to-IsSecured r _ 303 _ (
          set_cookie-IsSecured (session_cookie_of s "" unix_epoch) new_response
            new_response-IsSecured))
  ]

  set_lang-IsSecured : (r : Request) → IsSecured (set_lang s r)
  unfolding set_lang
  set_lang-IsSecured r = elim (Option-cases (parse_lang (or_empty (r.query "l")))) [
    | inl other ↦
        rw (other, set_lang) (redirect_to-IsSecured r _ 303 new_response new_response-IsSecured)
    | inr (l, known) ↦
        rw (known, set_lang)
          (redirect_to-IsSecured r _ 303 _ (
            set_cookie-IsSecured (choice_cookie s "lang" (lang_code l)) new_response
              new_response-IsSecured))
  ]

  set_theme-IsSecured : (r : Request) → IsSecured (set_theme s r)
  unfolding set_theme
  set_theme-IsSecured r = elim (Option-cases (parse_theme (or_empty (r.query "t")))) [
    | inl other ↦
        rw (other, set_theme) (redirect_to-IsSecured r _ 303 new_response new_response-IsSecured)
    | inr (t, known) ↦
        rw (known, set_theme)
          (redirect_to-IsSecured r _ 303 _ (
            set_cookie-IsSecured (choice_cookie s "theme" (theme_text t)) new_response
              new_response-IsSecured))
  ]

  create_failed-IsSecured :
      (code : ℕ) (reason : Option String) (field : String) (w : World)
      → IsSecured (create_failed s code reason field w).0
  unfolding create_failed
  create_failed-IsSecured code reason field w = same_headers-IsSecured _ _ refl (
      set_header-IsSecured "Content-Type" _ _ refl
        (add_header-IsSecured "Vary" _ new_response new_response-IsSecured))

  insert_answer-IsSecured :
      (r : Request) (o : Result DbError Swosh) (w : World) → IsSecured (insert_answer s r o w).0
  insert_answer-IsSecured r (err e) w = create_failed-IsSecured 500 _ "" w
  insert_answer-IsSecured r (ok sw) w =
      same_headers-IsSecured _ _ refl
        (set_header-IsSecured "Content-Type" _ new_response refl new_response-IsSecured)

  validated-IsSecured :
      (r : Request) (o : Result ValidationError NewSwosh) (w : World)
      → IsSecured (validated s r o w).0
  validated-IsSecured r (err v) w = create_failed-IsSecured 400 _ v.field w
  validated-IsSecured r (ok n) w = insert_answer-IsSecured r (insert s n w).0 (insert s n w).1

  decoded-IsSecured :
      (r : Request) (o : Option CreateRequest) (w : World) → IsSecured (decoded s r o w).0
  unfolding now
  decoded-IsSecured r none w = create_failed-IsSecured 400 _ "" w
  decoded-IsSecured r (some req) w =
      validated-IsSecured r _ (record w { readings = w.readings + 1 })

  create-IsSecured : (r : Request) (w : World) → IsSecured (create s r w).0
  unfolding create
  create-IsSecured r w = decoded-IsSecured r (parsed s r.create_body) w

  -- An answer that a lookup writes.
  abbrev Answered : Result Response Swosh → Type 0
  Answered (ok sw) = Unit
  Answered (err page) = IsSecured page

  not_found-IsSecured :
      (r : Request) (page : Page) → IsSecured (render_status s r 404 page new_response)
  not_found-IsSecured r page =
      render_status-IsSecured r 404 page new_response new_response-IsSecured

  unless_expired-Answered :
      (r : Request) (sw : Swosh) (e : Option Time) (w : World)
      → Answered (unless_expired s r sw e w).0
  unfolding now
  unless_expired-Answered r sw none w = tt
  unless_expired-Answered r sw (some e) w = elim (Bool-cases (ltb (s.outside.clock w.readings) e)) [
    | inl live ↦ rw live tt
    | inr expired ↦ rw expired (not_found-IsSecured r _)
  ]

  found_link-Answered :
      (r : Request) (found : Result DbError Swosh) (w : World) → Answered (found_link s r found w).0
  found_link-Answered r (err no_rows) w = not_found-IsSecured r _
  found_link-Answered r (err failure) w =
      http_error-IsSecured _ 500 new_response new_response-IsSecured
  found_link-Answered r (err unique_violation) w =
      http_error-IsSecured _ 500 new_response new_response-IsSecured
  found_link-Answered r (ok sw) w = unless_expired-Answered r sw sw.expires_on w

  lookup-Answered : (r : Request) (w : World) → Answered (lookup s r w).0
  unfolding lookup
  lookup-Answered r w =
      let (found, w') = Store.get_swosh s.outside r.path_id w in found_link-Answered r found w'

  previewed-IsSecured :
      (r : Request) (v : Result Response Swosh) → Answered v → IsSecured (previewed s r v)
  previewed-IsSecured r (err page) h = h
  previewed-IsSecured r (ok sw) h =
      render_status-IsSecured r 200 _ new_response new_response-IsSecured

  redirected-IsSecured : (v : Result Response Swosh) → Answered v → IsSecured (redirected s v)
  redirected-IsSecured (err page) h = h
  redirected-IsSecured (ok sw) h =
      same_headers-IsSecured _ _ refl
        (set_header-IsSecured "Location" _ new_response refl new_response-IsSecured)

  index-IsSecured : (r : Request) (w : World) → IsSecured (index s r w).0
  unfolding index
  index-IsSecured r w = render_status-IsSecured r 200 _ new_response new_response-IsSecured

  module _ (l : Lru) (swish : Swish) where
    qr_page-IsSecured : (a : Result QrError Bytes) → IsSecured (qr_page s l swish a)
    qr_page-IsSecured (err e) = http_error-IsSecured _ 502 new_response new_response-IsSecured
    qr_page-IsSecured (ok code) =
        same_headers-IsSecured _ _ refl
          (set_header-IsSecured "Content-Type" _ new_response refl new_response-IsSecured)

    coded-IsSecured :
        (c : QrClient l swish) (v : Result Response Swosh)
        → Answered v
        → IsSecured (coded s l swish c v).0
    coded-IsSecured c (err page) h = h
    coded-IsSecured c (ok sw) h = qr_page-IsSecured _

    pub serve_public-IsSecured :
        (route : PublicRoute) (r : Request) (site : Site s l swish)
        → IsSecured (serve_public s l swish route r site).0
    unfolding serve_public preview redirect qr login_form logout_form
    serve_public-IsSecured index_route r (w, c) = index-IsSecured r w
    serve_public-IsSecured login_form_route r (w, c) =
        render_status-IsSecured r 200 _ (no_store s) no_store-IsSecured
    serve_public-IsSecured login_route r (w, c) = login-IsSecured r w
    serve_public-IsSecured logout_form_route r (w, c) =
        render_status-IsSecured r 200 _ (no_store s) no_store-IsSecured
    serve_public-IsSecured logout_route r (w, c) = logout-IsSecured r
    serve_public-IsSecured lang_route r (w, c) = set_lang-IsSecured r
    serve_public-IsSecured theme_route r (w, c) = set_theme-IsSecured r
    serve_public-IsSecured create_route r (w, c) = create-IsSecured r w
    serve_public-IsSecured preview_route r (w, c) =
        previewed-IsSecured r (lookup s r w).0 (lookup-Answered r w)
    serve_public-IsSecured redirect_route r (w, c) =
        redirected-IsSecured (lookup s r w).0 (lookup-Answered r w)
    serve_public-IsSecured qr_route r (w, c) =
        coded-IsSecured c (lookup s r w).0 (lookup-Answered r w)
