-- ===== src/Web/Routes/Visits.antt =====
-- What a request to a public page of internal/web may change.
use swosh.Common.{
  ◌+◌, String, ◌≡◌, refl, ◌∙◌, ◌⊎◌, inl, inr, Option, none, some, [], ◌∷◌, ◌++◌, arith, ltb,
  Bool-cases, Result, ok, err,
}
use swosh.Db
use swosh.Db.{Time, Swosh, DbError, no_rows, failure, unique_violation, find_link}
use swosh.World.{World, now}
use swosh.World.Store
use swosh.Swish.Qr.{Lru, Swish}
use swosh.Web.Http.{Request}
use swosh.Web.Server.{Server}
use swosh.Web.Authn.Genuine.{SameTables}
use swosh.Web.Links.{unless_expired, found_link, lookup}
use swosh.Web.Links.Laws.{IsTouched, current_user-SameTables, touch-IsTouched}
use swosh.Web.Login.Outcome.{login-Outcome}
use swosh.Web.Api.{create}
use swosh.Web.Api.Outcome.{create-Outcome}
use swosh.Web.Pages.{index, preview, redirect, qr}
use swosh.Web.Routes.{
  PublicRoute, Site, serve_public, index_route, login_form_route, login_route, logout_form_route,
  logout_route, lang_route, theme_route, create_route, preview_route, redirect_route, qr_route,
}

-- What becomes of the tables: no user changes, and no link but that one was opened or one was
-- added under an id that was free.
pub record IsVisit (w w' : World) : Type 0 where
  pub links :
      (w'.links ≡ w.links)
      ⊎ ((t : Time) × (id : String) × (w'.links ≡ Db.touch_swosh t id w.links))
      ⊎ ((sw : Swosh) × (find_link sw.id w.links ≡ none) × (w'.links ≡ w.links ++ sw ∷ []))
  pub users : w'.users ≡ w.users

-- No user changes, and no link but that one may have been opened.
pub record IsOpened (w w' : World) : Type 0 where
  pub links :
      (w'.links ≡ w.links) ⊎ ((t : Time) × (id : String) × (w'.links ≡ Db.touch_swosh t id w.links))
  pub users : w'.users ≡ w.users

pub SameTables-IsOpened : {w w' : World} → SameTables w w' → IsOpened w w'
SameTables-IsOpened same = record { links = inl same.links; users = same.users }

IsOpened-IsVisit : {w w' : World} → IsOpened w w' → IsVisit w w'
IsOpened-IsVisit opened = record {
  links = elim opened.links [ inl same ↦ inl same | inr touched ↦ inr (inl touched) ];
  users = opened.users;
}

SameTables-IsVisit : {w w' : World} → SameTables w w' → IsVisit w w'
SameTables-IsVisit same = IsOpened-IsVisit (SameTables-IsOpened same)

module _ (s : Server) where
  IsTouched-IsOpened : {id : String} {w w' : World} → IsTouched s id w w' → IsOpened w w'
  IsTouched-IsOpened {id} touched = record {
    links = elim touched.links [ inl same ↦ inl same | inr (t, links) ↦ inr (t, id, links) ];
    users = touched.users;
  }

  get_swosh-SameTables : (id : String) (w : World) → SameTables w (Store.get_swosh s.outside id w).1
  unfolding Store.get_swosh
  get_swosh-SameTables id w = ground arith

  unless_expired-IsOpened :
      (r : Request) (sw : Swosh) (e : Option Time) (w : World)
      → IsOpened w (unless_expired s r sw e w).1
  unfolding now
  unless_expired-IsOpened r sw none w = IsTouched-IsOpened (touch-IsTouched s r sw.id w)
  unless_expired-IsOpened r sw (some e) w = elim (Bool-cases (ltb (s.outside.clock w.readings) e)) [
    | inl before ↦ rw before (
        let v =
          IsTouched-IsOpened (touch-IsTouched s r sw.id (record w { readings = w.readings + 1 })) in
        record { links = v.links; users = v.users })
    | inr after ↦ rw after (record { links = inl refl; users = refl })
  ]

  found_link-IsOpened :
      (r : Request) (found : Result DbError Swosh) (w : World)
      → IsOpened w (found_link s r found w).1
  found_link-IsOpened r (err no_rows) w = record { links = inl refl; users = refl }
  found_link-IsOpened r (err failure) w = record { links = inl refl; users = refl }
  found_link-IsOpened r (err unique_violation) w = record { links = inl refl; users = refl }
  found_link-IsOpened r (ok sw) w = unless_expired-IsOpened r sw sw.expires_on w

  IsOpened-after : {w w₁ w₂ : World} → SameTables w w₁ → IsOpened w₁ w₂ → IsOpened w w₂
  IsOpened-after same v = record { links = rw (← same.links) v.links; users = v.users ∙ same.users }

  -- A lookup changes no user, and no link but that it may open one.
  pub lookup-IsOpened : (r : Request) (w : World) → IsOpened w (lookup s r w).1
  unfolding lookup
  lookup-IsOpened r w =
      let (found, w') = Store.get_swosh s.outside r.path_id w in
      IsOpened-after (get_swosh-SameTables r.path_id w) (found_link-IsOpened r found w')

  create-IsVisit : (r : Request) (w : World) → IsVisit w (create s r w).1
  create-IsVisit r w = elim (create-Outcome s r w) [
    | inl made ↦ record { links = inr (inr (made.link, made.free, made.links)); users = made.users }
    | inr refused ↦ record { links = inl refused.links; users = refused.users }
  ]

  -- A request on a public route changes no user, and no link but that one may be opened or one may
  -- be added under an id that was free.
  pub serve_public-IsVisit :
      (l : Lru) (swish : Swish) (route : PublicRoute) (r : Request) (site : Site s l swish)
      → IsVisit site.0 (serve_public s l swish route r site).1.0
  unfolding serve_public index preview redirect qr
  serve_public-IsVisit l swish index_route r (w, c) =
      SameTables-IsVisit (current_user-SameTables s r w)
  serve_public-IsVisit l swish login_form_route r (w, c) = record { links = inl refl; users = refl }
  serve_public-IsVisit l swish login_route r (w, c) = SameTables-IsVisit (login-Outcome s r w).1
  serve_public-IsVisit l swish logout_form_route r (w, c) = record {
    links = inl refl;
    users = refl;
  }
  serve_public-IsVisit l swish logout_route r (w, c) = record { links = inl refl; users = refl }
  serve_public-IsVisit l swish lang_route r (w, c) = record { links = inl refl; users = refl }
  serve_public-IsVisit l swish theme_route r (w, c) = record { links = inl refl; users = refl }
  serve_public-IsVisit l swish create_route r (w, c) = create-IsVisit r w
  serve_public-IsVisit l swish preview_route r (w, c) = IsOpened-IsVisit (lookup-IsOpened r w)
  serve_public-IsVisit l swish redirect_route r (w, c) = IsOpened-IsVisit (lookup-IsOpened r w)
  serve_public-IsVisit l swish qr_route r (w, c) = IsOpened-IsVisit (lookup-IsOpened r w)
