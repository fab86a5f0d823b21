-- ===== src/Web/Links/Laws.antt =====
-- Which links `lookup` of internal/web/web.go serves, and what an access changes.
use swosh.Common.{
  ◌+◌, String, ◌≡◌, refl, ◌∙◌, subst, ◌⊎◌, inl, inr, Bool, true, false, Option, none, some, arith,
  ltb, if◌then◌else◌, Bool-cases, Result, ok, err,
}
use swosh.Db
use swosh.Db.{Time, Swosh, DbError, no_rows, find_link}
use swosh.World.{World, now}
use swosh.World.Store
use swosh.Web.Http.{Request, Response}
use swosh.Web.Server.{Server}
use swosh.Web.Authn.{current_user}
use swosh.Web.Authn.Genuine.{SameTables, session_user-SameTables}
use swosh.Web.Links.{is_admin, record_access, touch, not_found, unless_expired, found_link, lookup}

module _ (s : Server) where
  pub current_user-SameTables : (r : Request) (w : World) → SameTables w (current_user s r w).1
  unfolding current_user
  current_user-SameTables r w = session_user-SameTables s r w

  -- An access sets the time of the last access of one link, or changes nothing.
  pub record IsTouched (id : String) (w w' : World) : Type 0 where
    pub links : (w'.links ≡ w.links) ⊎ ((t : Time) × (w'.links ≡ Db.touch_swosh t id w.links))
    pub users : w'.users ≡ w.users

  record_access-IsTouched : (id : String) (w : World) → IsTouched id w (record_access s id w).1
  unfolding now Store.touch_swosh
  record_access-IsTouched id w = elim (Bool-cases (s.outside.down w.statements)) [
    | inl fails ↦ rw fails (record { links = inl refl; users = refl })
    | inr runs ↦ rw runs (record { links = inr (s.outside.clock w.readings, refl); users = refl })
  ]

  IsTouched-after :
      {id : String} {w w₁ w₂ : World} → SameTables w w₁ → IsTouched id w₁ w₂ → IsTouched id w w₂
  IsTouched-after {id} {w₂} same t = record {
    links =
        subst (λ l. (w₂.links ≡ l) ⊎ ((now : Time) × (w₂.links ≡ Db.touch_swosh now id l)))
          same.links t.links;
    users = t.users ∙ same.users;
  }

  pub touch-IsTouched : (r : Request) (id : String) (w : World) → IsTouched id w (touch s r id w).1
  unfolding touch
  touch-IsTouched r id w =
      let same = current_user-SameTables r w in
      let t = record_access-IsTouched id (current_user s r w).1 in
      elim (Bool-cases (is_admin s (current_user s r w).0)) [
        | inl admin ↦ rw (admin, touch) (record { links = inl same.links; users = same.users })
        | inr other ↦ rw (other, touch) (IsTouched-after same t)
      ]

  -- If the user of the request's session is an admin, `touch` changes neither table.
  pub touch-admin :
      (r : Request) (id : String) (w : World)
      → is_admin s (current_user s r w).0 ≡ true
      → SameTables w (touch s r id w).1
  unfolding touch
  touch-admin r id w admin = rw (admin, touch) (current_user-SameTables r w)

  -- The link that a request may see: the row with its id, unless it has expired.
  abbrev pub live : Time → Option Time → Bool
  live t none = true
  live t (some e) = ltb t e

  abbrev pub visible : Request → World → Option Swosh → Result Response Swosh
  visible r w none = not_found s r
  visible r w (some sw) =
      if live (s.outside.clock w.readings) sw.expires_on then ok sw else not_found s r

  abbrev pub Looked : Request → World → Result Response Swosh × World → Type 0
  Looked r w (ok sw, w') =
      (find_link r.path_id w.links ≡ some sw)
      × (live (s.outside.clock w.readings) sw.expires_on ≡ true)
      × IsTouched sw.id w w'
  Looked r w (err resp, w') = SameTables w w'

  unless_expired-Looked :
      (r : Request) (sw : Swosh) (e : Option Time) (w₀ w : World)
      → sw.expires_on ≡ e
      → find_link r.path_id w₀.links ≡ some sw
      → w.readings ≡ w₀.readings
      → SameTables w₀ w
      → Looked r w₀ (unless_expired s r sw e w)
  unfolding now
  unless_expired-Looked r sw none w₀ w expiry found clock same =
      (found, rw expiry refl, IsTouched-after same (touch-IsTouched r sw.id w))
  unless_expired-Looked r sw (some e) w₀ w expiry found clock same =
      elim (Bool-cases (ltb (s.outside.clock w.readings) e)) [
        | inl alive ↦ rw alive (
          found,
          rw expiry (rw (← clock) alive),
          IsTouched-after (record { links = same.links; users = same.users })
              (touch-IsTouched r sw.id (record w { readings = w.readings + 1 })),
        )
        | inr expired ↦ rw expired (record { links = same.links; users = same.users })
      ]

  answer_at :
      (r : Request) (o : Option Swosh) (w₀ w : World)
      → find_link r.path_id w₀.links ≡ o
      → w.readings ≡ w₀.readings
      → SameTables w₀ w
      → (Looked r w₀ (found_link s r (elim o [ none ↦ err no_rows | some sw ↦ ok sw ]) w))
        × ((found_link s r (elim o [ none ↦ err no_rows | some sw ↦ ok sw ]) w).0 ≡ visible r w₀ o)
  unfolding now
  answer_at r none w₀ w found clock same = (same, refl)
  answer_at r (some sw) w₀ w found clock same =
      (unless_expired-Looked r sw sw.expires_on w₀ w refl found clock same, sees sw.expires_on)
    where
      sees :
          (e : Option Time)
          → (unless_expired s r sw e w).0
            ≡ (if live (s.outside.clock w₀.readings) e then ok sw else not_found s r)
      sees none = refl
      sees (some e) = rw (← clock) (ground arith)

  get_swosh-answer :
      (id : String) (w : World)
      → s.outside.down w.statements ≡ false
      → Store.get_swosh s.outside id w ≡ (
        elim (find_link id w.links) [ none ↦ err no_rows | some sw ↦ ok sw ],
        record w { statements = w.statements + 1 },
      )
  unfolding Store.get_swosh Db.get_swosh
  get_swosh-answer id w up = rw up refl

  -- If the statement that `lookup` reads the link with does not fail, `lookup` gives the row with
  -- the id of the path if its expiry is none or after the time read, and else the not found page;
  -- a link that it gives stands in the table, and only the time of the last access of that id may
  -- change; otherwise the tables stay as they are.
  pub lookup-Looked :
      (r : Request) (w : World)
      → s.outside.down w.statements ≡ false
      → Looked r w (lookup s r w) × ((lookup s r w).0 ≡ visible r w (find_link r.path_id w.links))
  unfolding lookup
  lookup-Looked r w up =
      rw (get_swosh-answer r.path_id w up, lookup)
        (answer_at r (find_link r.path_id w.links) w (record w { statements = w.statements + 1 })
          refl refl (record { links = refl; users = refl }))
