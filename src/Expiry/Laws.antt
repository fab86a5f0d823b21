-- ===== src/Expiry/Laws.antt =====
-- What a sweep of internal/expiry/expiry.go deletes and counts.
use swosh.Common.{
  ◌⊎◌, ℕ, zero, suc, ◌+◌, String, ◌≡◌, refl, ◌∙◌, inl, inr, Bool, false, not, Option, none, some,
  List, [], ◌∷◌, arith, if◌then◌else◌, Bool-cases, length,
}
use swosh.Db
use swosh.Db.{Time, Swosh, DbError, find_link, keep_links, ids_of, expires_before}
use swosh.Db.Keys.{IsKeyed, find_link-keep_links, keep_links-IsKeyed}
use swosh.World.{World, Outside, now}
use swosh.World.Store
use swosh.Expiry.{sweep, run}

-- Every row is kept or its id is returned.
length-keep_links :
    (p : Swosh → Bool) (table : List Swosh)
    → length (ids_of p table) + length (keep_links (λ s. not (p s)) table) ≡ length table
unfolding ids_of keep_links
length-keep_links p [] = refl
length-keep_links p (s ∷ table) = ground (arith, length-keep_links p table)

-- The row that a lookup gives after the rows that expired before a time have been deleted.
abbrev pub unexpired : Time → Option Swosh → Option Swosh
unexpired t none = none
unexpired t (some s) = if expires_before t s then none else some s

find_link-unexpired :
    (t : Time) (k : String) (table : List Swosh)
    → IsKeyed table
    → find_link k (keep_links (λ s. not (expires_before t s)) table)
      ≡ unexpired t (find_link k table)
find_link-unexpired t k table h =
    ground (arith, find_link-keep_links (λ s. not (expires_before t s)) k table h)

-- Exactly the rows that expired before the time `t` are gone, and they are counted.
pub record IsSwept (t : Time) (w w' : World) : Type 0 where
  pub found : (k : String) → find_link k w'.links ≡ unexpired t (find_link k w.links)
  pub keyed : IsKeyed w'.links
  pub counted : w'.expired_links + length w'.links ≡ w.expired_links + length w.links
  pub users : w'.users ≡ w.users
  pub success : w'.create_success ≡ w.create_success
  pub failed : w'.create_failed ≡ w.create_failed

module _ (o : Outside) where
  counted_at :
      (t : Time) (n : ℕ) (table : List Swosh)
      → n
          + length (ids_of (expires_before t) table)
          + length (keep_links (λ s. not (expires_before t s)) table)
        ≡ n + length table
  counted_at t n table = ground (arith, length-keep_links (expires_before t) table)

  -- On links with unique ids and with a statement that does not fail, `Sweep` deletes exactly the
  -- links whose expiry lies before the time read, keeps ids unique, adds to the metric the number
  -- of links that are gone, and changes neither users nor the other counters.
  pub sweep-IsSwept :
      (w : World)
      → IsKeyed w.links
      → o.down w.statements ≡ false
      → IsSwept (o.clock w.readings) w (sweep o w).1
  unfolding sweep now Store.delete_expired_swoshes Db.delete_expired_swoshes
  sweep-IsSwept w keyed up =
      let t = o.clock w.readings in
      rw (up, sweep)
        (record {
          found = λ k. find_link-unexpired t k w.links keyed;
          keyed = keep_links-IsKeyed _ w.links keyed;
          counted = counted_at t w.expired_links w.links;
          users = refl;
          success = refl;
          failed = refl;
        })

  -- A sweep counts what it deletes and touches no user, whether or not the statement fails.
  abbrev pub Conserves : World → World → Type 0
  Conserves w w' =
      (w'.expired_links + length w'.links ≡ w.expired_links + length w.links) × (w'.users ≡ w.users)

  pub sweep-Conserves : (w : World) → Conserves w (sweep o w).1
  unfolding sweep now Store.delete_expired_swoshes Db.delete_expired_swoshes
  sweep-Conserves w = elim (Bool-cases (o.down w.statements)) [
    | inl fails ↦ rw (fails, sweep) (refl, refl)
    | inr runs ↦ rw (runs, sweep) (counted_at (o.clock w.readings) w.expired_links w.links, refl)
  ]

  pub sweep-IsKeyed : (w : World) → IsKeyed w.links → IsKeyed (sweep o w).1.links
  unfolding sweep now Store.delete_expired_swoshes Db.delete_expired_swoshes
  sweep-IsKeyed w h = elim (Bool-cases (o.down w.statements)) [
    | inl fails ↦ rw (fails, sweep) h
    | inr runs ↦ rw (runs, sweep) (keep_links-IsKeyed _ w.links h)
  ]

  -- After any number of ticks of `Run` on links with unique ids, whatever statements fail, ids are
  -- unique, the metric and the number of links have the same sum as before, and no user has
  -- changed.
  pub run-Conserves :
      (ticks : ℕ) (w : World)
      → IsKeyed w.links
      → IsKeyed (run o ticks w).1.links × Conserves w (run o ticks w).1
  unfolding run
  run-Conserves zero w h = (h, (refl, refl))
  run-Conserves (suc ticks) w h =
      let (keyed, (counted, users)) = run-Conserves ticks (sweep o w).1 (sweep-IsKeyed w h) in
      let (counted', users') = sweep-Conserves w in (keyed, (counted ∙ counted', users ∙ users'))

  -- A sweep that fails leaves the links as they are.
  pub sweep-found :
      (w : World)
      → IsKeyed w.links
      → (k : String)
      → (find_link k (sweep o w).1.links ≡ find_link k w.links)
        ⊎ (find_link k (sweep o w).1.links ≡ unexpired (o.clock w.readings) (find_link k w.links))
  unfolding sweep now Store.delete_expired_swoshes
  sweep-found w keyed k = elim (Bool-cases (o.down w.statements)) [
    | inl fails ↦ inl (rw (fails, sweep) refl)
    | inr runs ↦ inr ((sweep-IsSwept w keyed runs).found k)
  ]
