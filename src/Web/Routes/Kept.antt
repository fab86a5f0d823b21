-- ===== src/Web/Routes/Kept.antt =====
-- What becomes of a link of internal/web while nobody uses the admin pages.
use swosh.Common.{
  ℕ, ◌<◌, String, ◌≡◌, refl, sym, ap, ◌∙◌, subst, ◌⊎◌, inl, inr, true, false, Option, none, some,
  List, [], ◌∷◌, ◌++◌, ◌==◌, eq_iff, ltb, if◌then◌else◌, ltb→lt, Bool-cases,
}
use swosh.Db
use swosh.Db.{Time, Swosh, find_link, expires_before}
use swosh.Db.Keys.{IsKeyed, find_link-append, find_link-touch_swosh}
use swosh.World.{World}
use swosh.Expiry.{sweep}
use swosh.Expiry.Laws.{unexpired, sweep-IsKeyed, sweep-found}
use swosh.Swish.Qr.{Lru, Swish, QrClient}
use swosh.Web.Http.{Request}
use swosh.Web.Server.{Server}
use swosh.Web.Pages.{payment}
use swosh.Web.Routes.{PublicRoute, Site, serve_public}
use swosh.Web.Routes.Visits.{IsVisit, serve_public-IsVisit}
use swosh.Web.Routes.Reach.{visit-IsKeyed}

-- The row with the id of `sw` asks for the payment that `sw` asks for, and expires when it does.
abbrev pub Stands : Swosh → Option Swosh → Type 0
Stands sw none = ⊥
Stands sw (some sw') = (payment sw' ≡ payment sw) × (sw'.expires_on ≡ sw.expires_on)

touched-Stands :
    (t : Time) (id k : String) (sw : Swosh) (table : List Swosh)
    → Stands sw (find_link k table)
    → Stands sw (find_link k (Db.touch_swosh t id table))
unfolding payment
touched-Stands t id k sw table h =
    rw (find_link-touch_swosh t id k table) (stands (find_link k table) h)
  where
    stands :
        (o : Option Swosh)
        → Stands sw o
        → Stands sw (elim o [
          | none ↦ none
          | some s ↦ some (if k == id then record s { last_accessed_at = some t } else s)
        ])
    stands none h = h
    stands (some s) h = elim (Bool-cases (k == id)) [
      | inl same ↦ rw same h
      | inr other ↦ rw other h
    ]

added-Stands :
    (k : String) (new sw : Swosh) (table : List Swosh)
    → find_link new.id table ≡ none
    → Stands sw (find_link k table)
    → Stands sw (find_link k (table ++ new ∷ []))
added-Stands k new sw table free h = elim (Bool-cases (new.id == k)) [
  | inl same ↦
      let key : new.id ≡ k = (eq_iff new.id k).0 same in
      absurd (subst (Stands sw) (ap (λ i. find_link i table) (sym key) ∙ free) h)
  | inr other ↦ rw (find_link-append k table new free) (rw other h)
]

visit-Stands :
    {w w' : World} (sw : Swosh)
    → IsVisit w w'
    → Stands sw (find_link sw.id w.links)
    → Stands sw (find_link sw.id w'.links)
visit-Stands {w} sw v h = elim v.links [
  | inl same ↦ rw same h
  | inr (inl (t, id, links)) ↦ rw links (touched-Stands t id sw.id sw w.links h)
  | inr (inr (new, free, links)) ↦ rw links (added-Stands sw.id new sw w.links free h)
]

module _ (s : Server) (l : Lru) (swish : Swish) where
  -- The link had an expiry, which lay before some reading of the clock.
  abbrev pub HasExpired : Swosh → Type 0
  HasExpired sw = (e : Time) × (n : ℕ) × (sw.expires_on ≡ some e) × (e < s.outside.clock n)

  -- The link stands as it did, or it has expired.
  abbrev pub IsKept : Swosh → World → Type 0
  IsKept sw w = Stands sw (find_link sw.id w.links) ⊎ HasExpired sw

  expired_at :
      (t : Time) (o : Option Time)
      → (elim o [ none ↦ false | some e ↦ ltb e t ]) ≡ true
      → (e : Time) × (o ≡ some e) × (e < t)
  expired_at t none h = cc
  expired_at t (some e) h = (e, refl, ltb→lt e t h)

  unexpired-IsKept :
      (n : ℕ) (sw : Swosh) (o : Option Swosh)
      → Stands sw o
      → Stands sw (unexpired (s.outside.clock n) o) ⊎ HasExpired sw
  unexpired-IsKept n sw none h = absurd h
  unexpired-IsKept n sw (some sw') h = elim (Bool-cases (expires_before (s.outside.clock n) sw')) [
    | inl past ↦
        let (e, expiry, before) = expired_at (s.outside.clock n) sw'.expires_on past in
        inr (e, n, sym h.1 ∙ expiry, before)
    | inr later ↦ inl (rw later h)
  ]

  sweep-IsKept :
      (sw : Swosh) (w : World)
      → IsKeyed w.links
      → Stands sw (find_link sw.id w.links)
      → IsKept sw (sweep s.outside w).1
  sweep-IsKept sw w keyed h = elim (sweep-found s.outside w keyed sw.id) [
    | inl same ↦ inl (rw same h)
    | inr swept ↦ rw swept (unexpired-IsKept w.readings sw (find_link sw.id w.links) h)
  ]

  -- The states that are reached by public requests and by ticks of the expiry job.
  pub data Visited (site : Site s l swish) : Site s l swish → Type 0 where
    start : Visited site site
    served :
        {a : Site s l swish} (route : PublicRoute) (r : Request)
        → Visited site a
        → Visited site (serve_public s l swish route r a).1
    swept :
        {w : World} {c : QrClient l swish}
        → Visited site (w, c)
        → Visited site ((sweep s.outside w).1, c)

  visited-IsKeyed : {a b : Site s l swish} → Visited a b → IsKeyed a.0.links → IsKeyed b.0.links
  visited-IsKeyed start keyed = keyed
  visited-IsKeyed (served {a} route r before) keyed =
      visit-IsKeyed s l swish (serve_public-IsVisit s l swish route r a)
        (visited-IsKeyed before keyed)
  visited-IsKeyed (swept {w} before) keyed =
      sweep-IsKeyed s.outside w (visited-IsKeyed before keyed)

  visited-Stands :
      {a b : Site s l swish} (sw : Swosh)
      → Visited a b
      → IsKeyed a.0.links
      → Stands sw (find_link sw.id a.0.links)
      → IsKept sw b.0
  visited-Stands sw start keyed h = inl h
  visited-Stands sw (served {a} route r before) keyed h = elim (visited-Stands sw before keyed h) [
    | inl here ↦ inl (visit-Stands sw (serve_public-IsVisit s l swish route r a) here)
    | inr gone ↦ inr gone
  ]
  visited-Stands sw (swept {w} before) keyed h = elim (visited-Stands sw before keyed h) [
    | inl here ↦ sweep-IsKept sw w (visited-IsKeyed before keyed) here
    | inr gone ↦ inr gone
  ]

  -- Whatever public requests come and however often the expiry job runs, a link that the table
  -- holds at the start, with unique ids, still is found under its id with the payment and the
  -- expiry that it had, or it had an expiry that lay before some reading of the clock.
  pub visited-IsKept :
      {a b : Site s l swish} (sw : Swosh)
      → Visited a b
      → IsKeyed a.0.links
      → find_link sw.id a.0.links ≡ some sw
      → IsKept sw b.0
  visited-IsKept sw visited keyed found = visited-Stands sw visited keyed (rw found (refl, refl))
