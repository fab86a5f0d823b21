-- ===== src/Web/Routes.antt =====
-- internal/web/web.go: `routes`, and what the mux hands the requests to.
pub mod Visits
pub mod Reach
pub mod Kept
pub mod Secured
use swosh.Common.{
  ℕ, zero, suc, ◌+◌, ◌-◌, ◌*◌, ◌/◌, ◌%◌, ◌^◌, ◌≤◌, ◌<◌, Char, code, String, len, ◌≡◌, refl, sym, ap,
  ◌∙◌, subst, ◌≢◌, ◌↔◌, ◌⊎◌, inl, inr, Bool, true, false, not, ◌&&◌, ◌||◌, Option, none, some, List,
  [], ◌∷◌, ◌++◌, map, arith, ◌==◌, eq_iff, eq_refl, ltb, leb, eqb, if◌then◌else◌, ltb→lt, lt→ltb,
  leb→le, eqb_iff, Bool-cases, Option-cases, Result, ok, err, Result-cases, length, get_or, all,
  length-append, All, contains,
}
use swosh.World.{World, Action, pure, ◌>>=◌, ◌>>◌}
use swosh.Swish.Qr.{Lru, Swish, QrClient}
use swosh.Web.Http.{Request, Response}
use swosh.Web.Server.{Server}
use swosh.Web.Login.{login_form, login, logout_form, logout, set_lang, set_theme}
use swosh.Web.Api.{create}
use swosh.Web.Pages.{index, preview, redirect, qr}
use swosh.Web.Admin.Handlers.{AdminRoute, serve_admin}

-- The patterns of `mux`, without the static files.
pub data PublicRoute : Type 0 where
  index_route login_form_route login_route logout_form_route logout_route lang_route theme_route
        create_route preview_route redirect_route qr_route :
      PublicRoute

-- A pattern of `mux` or of `admin`, which has the paths under /admin.
pub data Route : Type 0 where
  public_route : PublicRoute → Route
  admin_route : AdminRoute → Route

module _ (s : Server) (l : Lru) (swish : Swish) where
  -- The tables and counters, and the cache of QR codes.
  abbrev pub Site : Type 0
  Site = World × QrClient l swish

  -- A handler that does not look at the cache.
  abbrev beside : Action Response → Site → Response × Site
  beside h (w, c) = let (resp, w') = h w in (resp, (w', c))

  abbrev with_codes :
      (QrClient l swish → Action (Response × QrClient l swish)) → Site → Response × Site
  with_codes h (w, c) = let ((resp, c'), w') = h c w in (resp, (w', c'))

  -- The handler that `routes` sets for a pattern of `mux`.
  unfoldable pub serve_public : PublicRoute → Request → Site → Response × Site
  unfolding index login_form login logout_form logout set_lang set_theme create preview redirect qr
  serve_public index_route r = beside (index s r)
  serve_public login_form_route r = beside (pure (login_form s r))
  serve_public login_route r = beside (login s r)
  serve_public logout_form_route r = beside (pure (logout_form s r))
  serve_public logout_route r = beside (pure (logout s r))
  serve_public lang_route r = beside (pure (set_lang s r))
  serve_public theme_route r = beside (pure (set_theme s r))
  serve_public create_route r = beside (create s r)
  serve_public preview_route r = beside (preview s r)
  serve_public redirect_route r = beside (redirect s r)
  serve_public qr_route r = with_codes (λ c. qr s l swish c r)

  -- `routes`, below its middleware
  unfoldable pub serve : Route → Request → Site → Response × Site
  unfolding serve_public serve_admin
  serve (public_route route) r = serve_public route r
  serve (admin_route route) r = beside (serve_admin s route r)
