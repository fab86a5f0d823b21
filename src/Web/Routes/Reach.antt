-- ===== src/Web/Routes/Reach.antt =====
-- The states that a running site of internal/web and internal/expiry can come to.
use swosh.Common.{inl, inr, Result, ok, err}
use swosh.Db.{Swosh}
use swosh.Db.Keys.{IsKeyed, append-IsKeyed, touch_swosh-IsKeyed}
use swosh.World.{World}
use swosh.Expiry.{sweep}
use swosh.Expiry.Laws.{sweep-IsKeyed}
use swosh.Swish.Qr.{Lru, Swish, QrClient}
use swosh.Swish.Qr.Laws.{IsLru, IsGenuine, png-IsGenuine}
use swosh.Web.Http.{Request, Response}
use swosh.Web.Server.{Server}
use swosh.Web.Links.{lookup}
use swosh.Web.Pages.{payment, qr, coded}
use swosh.Web.Admin.Effects.{serve_admin-IsKeyed}
use swosh.Web.Routes.{
  PublicRoute, Route, Site, serve_public, serve, public_route, index_route, login_form_route,
  login_route, logout_form_route, logout_route, lang_route, theme_route, create_route,
  preview_route, redirect_route, qr_route, admin_route,
}
use swosh.Web.Routes.Visits.{IsVisit, serve_public-IsVisit}

module _ (s : Server) (l : Lru) (swish : Swish) where
  -- A request is served, or the timer of the expiry job ticks.
  pub data Step : Site s l swish → Site s l swish → Type 0 where
    served :
        (route : Route) (r : Request) (site : Site s l swish)
        → Step site (serve s l swish route r site).1
    swept : (w : World) (c : QrClient l swish) → Step (w, c) ((sweep s.outside w).1, c)

  pub data Reach (site : Site s l swish) : Site s l swish → Type 0 where
    start : Reach site site
    next : {a b : Site s l swish} → Reach site a → Step a b → Reach site b

  pub visit-IsKeyed : {w w' : World} → IsVisit w w' → IsKeyed w.links → IsKeyed w'.links
  visit-IsKeyed {w} v h = elim v.links [
    | inl same ↦ rw same h
    | inr (inl (t, id, links)) ↦ rw links (touch_swosh-IsKeyed t id w.links h)
    | inr (inr (sw, free, links)) ↦ rw links (append-IsKeyed w.links sw h free)
  ]

  -- No two links share an id, and every cached code is Swish's answer for its payment.
  pub record IsSound (site : Site s l swish) : Type 0 where
    pub keyed : IsKeyed site.0.links
    pub genuine : IsGenuine l swish site.1

  module _ (h : IsLru l) where
    coded-IsGenuine :
        (c : QrClient l swish) (v : Result Response Swosh)
        → IsGenuine l swish c
        → IsGenuine l swish (coded s l swish c v).1
    coded-IsGenuine c (err page) g = g
    coded-IsGenuine c (ok sw) g = (png-IsGenuine l swish h (payment sw) c g).0

    codes-IsGenuine :
        (route : PublicRoute) (r : Request) (site : Site s l swish)
        → IsGenuine l swish site.1
        → IsGenuine l swish (serve_public s l swish route r site).1.1
    unfolding serve_public qr
    codes-IsGenuine qr_route r (w, c) g = coded-IsGenuine c (lookup s r w).0 g
    codes-IsGenuine index_route r (w, c) g = g
    codes-IsGenuine login_form_route r (w, c) g = g
    codes-IsGenuine login_route r (w, c) g = g
    codes-IsGenuine logout_form_route r (w, c) g = g
    codes-IsGenuine logout_route r (w, c) g = g
    codes-IsGenuine lang_route r (w, c) g = g
    codes-IsGenuine theme_route r (w, c) g = g
    codes-IsGenuine create_route r (w, c) g = g
    codes-IsGenuine preview_route r (w, c) g = g
    codes-IsGenuine redirect_route r (w, c) g = g

    Step-IsSound : {a b : Site s l swish} → Step a b → IsSound a → IsSound b
    unfolding serve
    Step-IsSound (swept w c) sound = record {
      keyed = sweep-IsKeyed s.outside w sound.keyed;
      genuine = sound.genuine;
    }
    Step-IsSound (served (admin_route route) r (w, c)) sound = record {
      keyed = (serve_admin-IsKeyed s route r w sound.keyed).0;
      genuine = sound.genuine;
    }
    Step-IsSound (served (public_route route) r site) sound = record {
      keyed = visit-IsKeyed (serve_public-IsVisit s l swish route r site) sound.keyed;
      genuine = codes-IsGenuine route r site sound.genuine;
    }

    -- In every state that requests on any route, by anyone, and ticks of the expiry job lead to
    -- from a state in which no two links share an id and every cached code is Swish's answer to a
    -- request for its payment, that still is so, if the cache behaves as one.
    pub reach-IsSound : {a b : Site s l swish} → Reach a b → IsSound a → IsSound b
    reach-IsSound start sound = sound
    reach-IsSound (next reach step) sound = Step-IsSound step (reach-IsSound reach sound)
