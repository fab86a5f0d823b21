-- ===== src/Web/Mux.antt =====
-- internal/web/web.go, `routes`: the patterns that it registers, its handler, and `instrument`.
pub mod Match
pub mod Links
pub mod Observed
pub mod Safe
pub mod Created
pub mod Secured
use swosh.Common.{
  ℕ, code, String, len, ◌≡◌, refl, sym, ap, ◌∙◌, Bool, true, false, not, ◌&&◌, ◌||◌, Option, none,
  some, List, [], ◌∷◌, ◌++◌, map, arith, ◌==◌, eq_iff, eq_refl, ltb, leb, eqb, if◌then◌else◌,
  Bool-cases, Option-cases, contains, is_some,
}
use Prim.Native.String.{◌++◌ as ◌<>◌}
use swosh.Web.Mux.Match.{
  Segment, literal, wildcard, Handler, handles, serves_file, Pattern, handle, split, Target, found,
  wrong_method, unknown, lookup_in,
}
use swosh.Web.Http.{Request, Response, new_response, set_header, http_error}
use swosh.Web.Server.{Server}
use swosh.Swish.Qr.{Lru, Swish}
use text.Mathlib.Text.{starts_with}
use swosh.Web.Admin.Handlers.{
  list_route, single_route, update_route, delete_route, delete_many_route,
}
use swosh.Web.Routes.{
  Route, Site, serve, public_route, index_route, login_form_route, login_route, logout_form_route,
  logout_route, lang_route, theme_route, create_route, preview_route, redirect_route, qr_route,
  admin_route,
}

unfoldable pub admin_patterns : List Pattern
unfolding handle
admin_patterns =
    handle "GET /admin" (handles (admin_route list_route))
    ∷ handle "GET /admin/{$}" (handles (admin_route list_route))
    ∷ handle "GET /admin/{id}" (handles (admin_route single_route))
    ∷ handle "POST /admin/{id}" (handles (admin_route update_route))
    ∷ handle "DELETE /admin/{id}" (handles (admin_route delete_route))
    ∷ handle "DELETE /admin" (handles (admin_route delete_many_route))
    ∷ handle "DELETE /admin/{$}" (handles (admin_route delete_many_route))
    ∷ []

-- The files below internal/web/static, in the order of `fs.WalkDir`.
abbrev pub static_files : List String
static_files =
    "css/swosh.css" ∷ "img/apple-touch-icon.png" ∷ "img/icon.svg" ∷ "img/icons.svg"
    ∷ "img/notfound.svg" ∷ "img/og.png" ∷ "img/og.svg" ∷ "img/swish-logo-dark.png"
    ∷ "img/swish-logo-light.png" ∷ "js/admin.js" ∷ "js/preview.js" ∷ "js/swosh.js" ∷ "js/time.js"
    ∷ []

abbrev file_pattern : String → Pattern
unfolding handle
file_pattern p = handle (◌<>◌ "GET /" p) serves_file

unfoldable pub public_patterns : List Pattern
unfolding handle
public_patterns =
    (handle "GET /{$}" (handles (public_route index_route))
      ∷ handle "GET /login" (handles (public_route login_form_route))
      ∷ handle "POST /login" (handles (public_route login_route))
      ∷ handle "GET /logout" (handles (public_route logout_form_route))
      ∷ handle "POST /logout" (handles (public_route logout_route))
      ∷ handle "GET /lang" (handles (public_route lang_route))
      ∷ handle "GET /theme" (handles (public_route theme_route))
      ∷ handle "POST /api/create" (handles (public_route create_route))
      ∷ handle "GET /{id}" (handles (public_route preview_route))
      ∷ handle "GET /{id}/redir" (handles (public_route redirect_route))
      ∷ handle "GET /{id}/qr" (handles (public_route qr_route))
      ∷ [])
    ++ map file_pattern static_files

-- The handler that `routes` ends with: the paths under /admin have a mux of their own.
unfoldable pub is_admin_path : String → Bool
is_admin_path path = path == "/admin" || starts_with path "/admin/"

unfoldable pub dispatch : String → String → Target
unfolding lookup_in admin_patterns public_patterns is_admin_path
dispatch method path =
    if is_admin_path path
    then lookup_in admin_patterns method path
    else lookup_in public_patterns method path

-- `strings.Join`
abbrev join : String → List String → String
join sep [] = ""
join sep (t ∷ []) = t
join sep (t ∷ u ∷ ts) = ◌<>◌ t (◌<>◌ sep (join sep (u ∷ ts)))

-- What `instrument` records of a request: the labels of its duration.
pub record Observation : Type 0 where
  pub method : String
  pub uri : String
  pub status : ℕ

-- The pattern that the mux has set, and none where it found none.
abbrev pub pattern_of : Target → String
pattern_of (found p id) = p.text
pattern_of (wrong_method ms) = ""
pattern_of unknown = ""

abbrev behind_space : List String → String
behind_space [] = ""
behind_space (m ∷ rest) = join " " rest

-- `strings.TrimSuffix`
unfoldable pub trim_suffix : String → String → String
trim_suffix String.[] suffix = ""
trim_suffix (String.◌∷◌ c s) suffix =
    if String.◌∷◌ c s == suffix then "" else String.◌∷◌ c (trim_suffix s suffix)

unfoldable pub uri_label : String → String
unfolding split trim_suffix
uri_label pattern =
    if pattern == "" then "NOT_FOUND" else trim_suffix (behind_space (split b' ' pattern)) "{$}"

-- `files` is `http.FileServerFS` on the static files.
module _ (s : Server) (l : Lru) (swish : Swish) (files : Request → Response) where
  abbrev handled_by : Handler → Request → Site s l swish → Response × Site s l swish
  unfolding serve
  handled_by (handles route) r site = serve s l swish route r site
  handled_by serves_file r site = (files r, site)

  unfoldable pub answer : Target → Request → Site s l swish → Response × Site s l swish
  unfolding serve set_header http_error
  answer (found p id) r site = handled_by p.handler (record r { path_id = id }) site
  answer (wrong_method ms) r site =
      (http_error "Method Not Allowed" 405 (set_header "Allow" (join ", " ms) new_response), site)
  answer unknown r site = (http_error "404 page not found" 404 new_response, site)

  -- The handler of the site, with what `instrument` records.
  unfoldable pub respond : Request → Site s l swish → (Response × Site s l swish) × Observation
  unfolding dispatch answer uri_label
  respond r site =
      let target = dispatch r.method r.path in
      let (resp, site') = answer target r site in
      (
        (resp, site'),
        record { method = r.method; uri = uri_label (pattern_of target); status = resp.status },
      )
