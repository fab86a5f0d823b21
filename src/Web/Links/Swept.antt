-- ===== src/Web/Links/Swept.antt =====
-- What visitors of internal/web/web.go see of the sweeps of internal/expiry/expiry.go.
use swosh.Common.{
  ◌+◌, ◌≤◌, String, ◌≡◌, refl, sym, ap, ◌∙◌, ◌⊎◌, inl, inr, true, false, Option, none, some, arith,
  ltb, Bool-cases,
}
use swosh.Db.{Time, Swosh, find_link, expires_before}
use swosh.Db.Keys.{IsKeyed}
use swosh.World.{World, now}
use swosh.World.Store
use swosh.Expiry.{sweep}
use swosh.Expiry.Laws.{unexpired, sweep-IsSwept}
use swosh.Web.Http.{Request}
use swosh.Web.Server.{Server}
use swosh.Web.Links.{lookup}
use swosh.Web.Links.Laws.{live, visible, lookup-Looked}
use swosh.Web.Pages.{previewed, preview, redirected, redirect}

-- The world after as much time and as many statements as a sweep takes, with nothing swept.
abbrev pub unswept : World → World
unswept w = record w { readings = w.readings + 1; statements = w.statements + 1 }

module _ (s : Server) where
  past :
      (e : Option Time) (t u : Time)
      → t ≤ u
      → elim e [ none ↦ false | some x ↦ ltb x t ] ≡ true
      → live s u e ≡ false
  past none t u h gone = cc
  past (some x) t u h gone = ground arith

  -- A row that has expired is not visible later, whether or not it is still there.
  visible-unexpired :
      (r : Request) (w : World) (t : Time) (o : Option Swosh)
      → t ≤ s.outside.clock w.readings
      → visible s r w (unexpired t o) ≡ visible s r w o
  visible-unexpired r w t none before = refl
  visible-unexpired r w t (some sw) before = elim (Bool-cases (expires_before t sw)) [
    | inr stays ↦ rw stays refl
    | inl gone ↦ rw (gone, past sw.expires_on t (s.outside.clock w.readings) before gone) refl
  ]

  -- What a sweep does to the links, whether or not its statement fails.
  IsThinned : World → World → Type 0
  IsThinned w w' =
      (w'.readings ≡ w.readings + 1)
      × (w'.statements ≡ w.statements + 1)
      × ((w'.links ≡ w.links)
          ⊎ ((k : String)
              → find_link k w'.links
                ≡ unexpired (s.outside.clock w.readings) (find_link k w.links)))

  sweep-IsThinned : (w : World) → IsKeyed w.links → IsThinned w (sweep s.outside w).1
  unfolding IsThinned sweep now Store.delete_expired_swoshes
  sweep-IsThinned w keyed = elim (Bool-cases (s.outside.down w.statements)) [
    | inr up ↦ (rw up refl, rw up refl, inr (sweep-IsSwept s.outside w keyed up).found)
    | inl down ↦ rw down (refl, refl, inl refl)
  ]

  -- The links that are visible in two worlds at one time.
  visible-thinned :
      (r : Request) (w w' : World)
      → IsThinned w w'
      → s.outside.clock w.readings ≤ s.outside.clock (w.readings + 1)
      → visible s r w' (find_link r.path_id w'.links)
        ≡ visible s r (unswept w) (find_link r.path_id w.links)
  unfolding IsThinned
  visible-thinned r w w' (readings, _, inl same) later = rw (readings, same) refl
  visible-thinned r w w' (readings, _, inr found) later =
      rw (readings, found r.path_id)
        (visible-unexpired r (unswept w) (s.outside.clock w.readings) (find_link r.path_id w.links)
          later)

  lookup-sweep :
      (r : Request) (w : World)
      → IsKeyed w.links
      → s.outside.clock w.readings ≤ s.outside.clock (w.readings + 1)
      → s.outside.down (w.statements + 1) ≡ false
      → (lookup s r (sweep s.outside w).1).0 ≡ (lookup s r (unswept w)).0
  unfolding IsThinned
  lookup-sweep r w keyed later up =
      let thin = sweep-IsThinned w keyed in
      (lookup-Looked s r (sweep s.outside w).1 (ap s.outside.down thin.1 ∙ up)).1
      ∙ visible-thinned r w (sweep s.outside w).1 thin later
      ∙ sym (lookup-Looked s r (unswept w) up).1

  -- A sweep is not seen by visitors: on links with unique ids, whether or not the sweep's
  -- statement fails, `preview` and `redirect` answer every request after it as they would at that
  -- time without it, if the clock does not go back and the statement that reads the link does not
  -- fail.
  pub preview-sweep :
      (r : Request) (w : World)
      → IsKeyed w.links
      → s.outside.clock w.readings ≤ s.outside.clock (w.readings + 1)
      → s.outside.down (w.statements + 1) ≡ false
      → ((preview s r (sweep s.outside w).1).0 ≡ (preview s r (unswept w)).0)
        × ((redirect s r (sweep s.outside w).1).0 ≡ (redirect s r (unswept w)).0)
  unfolding preview redirect
  preview-sweep r w keyed later up =
      let same = lookup-sweep r w keyed later up in
      (ap (previewed s r) same, ap (redirected s) same)
