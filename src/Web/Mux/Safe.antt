-- ===== src/Web/Mux/Safe.antt =====
-- What a request with a safe method may change on the site of internal/web/web.go.
use swosh.Common.{
  code, String, ◌≡◌, refl, ◌∙◌, ◌⊎◌, inl, inr, Bool, true, false, List, arith, eq_iff,
}
use swosh.World.{World}
use swosh.World.Store
use swosh.Swish.Qr.{Lru, Swish}
use swosh.Web.Http.{Request, Response, is_safe_method, set_header, new_response}
use swosh.Web.Server.{Server}
use swosh.Web.Links.Laws.{current_user-SameTables}
use swosh.Web.Pages.{index, preview, redirect, qr}
use swosh.Web.Authn.{Principal, AdminHandler, admin}
use swosh.Web.Authn.Genuine.{SameTables}
use swosh.Web.Authn.Guard.{admin-Guarded}
use swosh.Web.Admin.Handlers.{
  list_route, single_route, update_route, delete_route, delete_many_route, serve_admin, admin_list,
  admin_single,
}
use swosh.Web.Routes.{
  Route, Site, serve_public, serve, public_route, index_route, login_form_route, login_route,
  logout_form_route, logout_route, lang_route, theme_route, create_route, preview_route,
  redirect_route, qr_route, admin_route,
}
use swosh.Web.Routes.Visits.{IsOpened, SameTables-IsOpened, lookup-IsOpened}
use swosh.Web.Mux.{admin_patterns, public_patterns, dispatch, answer, respond}
use swosh.Web.Mux.Match.{
  Handler, handles, serves_file, Pattern, Target, found, wrong_method, unknown, with_patterns,
}
use swosh.Web.Mux.Match.Fits.{all_in, target_fits, lookup_in-fits}

-- The routes that are there to be read.
abbrev reads : Route → Bool
reads (public_route login_route) = false
reads (public_route logout_route) = false
reads (public_route create_route) = false
reads (public_route route) = true
reads (admin_route list_route) = true
reads (admin_route single_route) = true
reads (admin_route route) = false

abbrev is_read : Pattern → Bool
is_read p = elim p.handler [ handles route ↦ reads route | serves_file ↦ true ]

-- Of the patterns of each mux, those for a safe method read.
safe_cases : (m : String) → is_safe_method m ≡ true → (m ≡ "GET") ⊎ (m ≡ "HEAD") ⊎ (m ≡ "OPTIONS")
safe_cases m safe = ground (arith, eq_iff m "GET", eq_iff m "HEAD", eq_iff m "OPTIONS")

safe-all_in :
    (ps : List Pattern)
    → all_in is_read (with_patterns "GET" ps) ≡ true
    → all_in is_read (with_patterns "HEAD" ps) ≡ true
    → all_in is_read (with_patterns "OPTIONS" ps) ≡ true
    → (m : String) → is_safe_method m ≡ true
    → all_in is_read (with_patterns m ps) ≡ true
safe-all_in ps g h o m safe = elim (safe_cases m safe) [
  | inl e ↦ rw e g
  | inr (inl e) ↦ rw e h
  | inr (inr e) ↦ rw e o
]

reads-admin :
    (m : String) → is_safe_method m ≡ true → all_in is_read (with_patterns m admin_patterns) ≡ true
unfolding with_patterns admin_patterns all_in
reads-admin m safe = safe-all_in admin_patterns refl refl refl m safe

reads-public :
    (m : String) → is_safe_method m ≡ true → all_in is_read (with_patterns m public_patterns) ≡ true
unfolding with_patterns public_patterns all_in
reads-public m safe = safe-all_in public_patterns refl refl refl m safe

safe-dispatch :
    (m path : String) → is_safe_method m ≡ true → target_fits is_read (dispatch m path) ≡ true
unfolding dispatch
safe-dispatch m path safe = ground (
  arith,
  lookup_in-fits is_read m admin_patterns (reads-admin m safe) (λ _. reads-admin "GET" refl) path,
  lookup_in-fits is_read m public_patterns (reads-public m safe) (λ _. reads-public "GET" refl)
      path,
)

module _ (s : Server) where
  admin-SameTables :
      (authority : String) (h : AdminHandler s)
      → ((b : Response) (r : Request) (p : Principal) (w : World) → SameTables w (h b r p w).1)
      → (r : Request) (w : World) → SameTables w (admin s authority h r w).1
  admin-SameTables authority h keeping r w = elim (admin-Guarded s authority h r w) [
    | inl (p, w', same, admitted, e) ↦ rw e (
        let k = keeping (set_header "Cache-Control" "no-store" new_response) r p w' in
        record { links = k.links ∙ same.links; users = k.users ∙ same.users })
    | inr (code, same) ↦ same
  ]

  admin_list-SameTables :
      (b : Response) (r : Request) (p : Principal) (w : World)
      → SameTables w (admin_list s b r p w).1
  unfolding admin_list Store.list_swoshes
  admin_list-SameTables b r p w = ground arith

  admin_single-SameTables :
      (b : Response) (r : Request) (p : Principal) (w : World)
      → SameTables w (admin_single s b r p w).1
  unfolding admin_single Store.get_swosh
  admin_single-SameTables b r p w = ground arith

  module _ (l : Lru) (swish : Swish) (files : Request → Response) where
    serve-IsOpened :
        (route : Route) (r : Request) (site : Site s l swish)
        → reads route ≡ true
        → IsOpened site.0 (serve s l swish route r site).1.0
    unfolding serve serve_public serve_admin index preview redirect qr
    serve-IsOpened (public_route index_route) r (w, c) h =
        SameTables-IsOpened (current_user-SameTables s r w)
    serve-IsOpened (public_route login_form_route) r (w, c) h = record {
      links = inl refl;
      users = refl;
    }
    serve-IsOpened (public_route login_route) r (w, c) h = cc
    serve-IsOpened (public_route logout_form_route) r (w, c) h = record {
      links = inl refl;
      users = refl;
    }
    serve-IsOpened (public_route logout_route) r (w, c) h = cc
    serve-IsOpened (public_route lang_route) r (w, c) h = record { links = inl refl; users = refl }
    serve-IsOpened (public_route theme_route) r (w, c) h = record { links = inl refl; users = refl }
    serve-IsOpened (public_route create_route) r (w, c) h = cc
    serve-IsOpened (public_route preview_route) r (w, c) h = lookup-IsOpened s r w
    serve-IsOpened (public_route redirect_route) r (w, c) h = lookup-IsOpened s r w
    serve-IsOpened (public_route qr_route) r (w, c) h = lookup-IsOpened s r w
    serve-IsOpened (admin_route list_route) r (w, c) h =
        SameTables-IsOpened (admin-SameTables "" (admin_list s) admin_list-SameTables r w)
    serve-IsOpened (admin_route single_route) r (w, c) h =
        SameTables-IsOpened (admin-SameTables "" (admin_single s) admin_single-SameTables r w)
    serve-IsOpened (admin_route update_route) r (w, c) h = cc
    serve-IsOpened (admin_route delete_route) r (w, c) h = cc
    serve-IsOpened (admin_route delete_many_route) r (w, c) h = cc

    answer-IsOpened :
        (t : Target) (r : Request) (site : Site s l swish)
        → target_fits is_read t ≡ true
        → IsOpened site.0 (answer s l swish files t r site).1.0
    unfolding answer
    answer-IsOpened (wrong_method ms) r site h = record { links = inl refl; users = refl }
    answer-IsOpened unknown r site h = record { links = inl refl; users = refl }
    answer-IsOpened (found p id) r site h = handled p.handler h
      where
        handled :
            (g : Handler)
            → is_read (record p { handler = g }) ≡ true
            → IsOpened site.0
                (answer s l swish files (found (record p { handler = g }) id) r site).1.0
        handled (handles route) h = serve-IsOpened route (record r { path_id = id }) site h
        handled serves_file h = record { links = inl refl; users = refl }

    -- A request with a safe method, GET, HEAD or OPTIONS, whatever its path, changes no user, and
    -- no link but that the last access of one may be set.
    pub respond-IsOpened :
        (r : Request) (site : Site s l swish)
        → is_safe_method r.method ≡ true
        → IsOpened site.0 (respond s l swish files r site).0.1.0
    unfolding respond
    respond-IsOpened r site safe =
        answer-IsOpened (dispatch r.method r.path) r site (safe-dispatch r.method r.path safe)
