-- ===== src/Web/Api/Retry.antt =====
-- When `insert` of internal/web/web.go finds an id that is not taken.
use swosh.Common.{
  ℕ, zero, suc, ◌+◌, ◌*◌, ◌≤◌, ◌<◌, String, ◌≡◌, refl, ap, subst, inl, inr, false, none, some,
  arith, Option-cases, ok, err, length, get_or,
}
use swosh.Db
use swosh.Db.{Swosh, DbError, unique_violation, no_rows, failure, find_link}
use swosh.World.{World, Outside, random}
use swosh.World.Store
use swosh.Linkid.{adjectives, nouns, verbs, pick, new_id}
use swosh.Web.Create.{NewSwosh}
use swosh.Web.Server.{Server}
use swosh.Web.Api.{try_insert, insert_from, insert}
use Prim.Native.String.{◌++◌ as ◌<>◌}

-- The id that the random numbers from the d-th on make.
abbrev pub id_at : Outside → ℕ → String
id_at o d = ◌<>◌ (get_or adjectives (o.rand_int d (length adjectives)) "") (
    ◌<>◌ "-" (
      ◌<>◌ (get_or nouns (o.rand_int (d + 1) (length nouns)) "")
        (◌<>◌ "-" (get_or verbs (o.rand_int (d + 1 + 1) (length verbs)) ""))))

new_id-id_at :
    (o : Outside) (w : World)
    → new_id o w ≡ (id_at o w.draws, record w { draws = w.draws + 1 + 1 + 1 })
unfolding new_id pick random
new_id-id_at o w = refl

module _ (s : Server) (n : NewSwosh) where
  -- What one round leaves for the next.
  abbrev after_round : World → World
  after_round w = record w { draws = w.draws + 1 + 1 + 1; statements = w.statements + 1 }

  try_insert-free :
      (w : World)
      → s.outside.down w.statements ≡ false
      → find_link (id_at s.outside w.draws) w.links ≡ none
      → (sw : Swosh) × ((try_insert s n w).0 ≡ ok sw)
  unfolding try_insert Store.create_swosh Db.create_swosh
  try_insert-free w up free =
      rw (new_id-id_at s.outside w) (rw (up, free, Db.create_swosh) (_, refl))

  try_insert-taken :
      (w : World) (t : Swosh)
      → s.outside.down w.statements ≡ false
      → find_link (id_at s.outside w.draws) w.links ≡ some t
      → try_insert s n w ≡ (err unique_violation, after_round w)
  unfolding try_insert Store.create_swosh Db.create_swosh
  try_insert-taken w t up taken =
      rw (new_id-id_at s.outside w) (rw (up, taken, Db.create_swosh) refl)

  -- The hypotheses of a later round, from those of this one.
  up_later :
      (k : ℕ) (w : World)
      → ((j : ℕ) → j ≤ suc k → s.outside.down (w.statements + j) ≡ false)
      → (j : ℕ) → j ≤ k
      → s.outside.down (w.statements + 1 + j) ≡ false
  up_later k w up j h =
      subst (λ m. s.outside.down m ≡ false) (omega arith) (up (suc j) (omega arith))

  free_later :
      (k : ℕ) (w : World)
      → find_link (id_at s.outside (w.draws + 3 * suc k)) w.links ≡ none
      → find_link (id_at s.outside (w.draws + 1 + 1 + 1 + 3 * k)) w.links ≡ none
  free_later k w free = subst (λ m. find_link (id_at s.outside m) w.links ≡ none) (omega arith) free

  free_now : (w : World) → w.draws + 3 * 0 ≡ w.draws
  free_now w = omega arith

  insert_from_succeeds :
      (rounds k : ℕ) (last : DbError) (w : World)
      → k < rounds
      → ((j : ℕ) → j ≤ k → s.outside.down (w.statements + j) ≡ false)
      → find_link (id_at s.outside (w.draws + 3 * k)) w.links ≡ none
      → (sw : Swosh) × ((insert_from s rounds last n w).0 ≡ ok sw)
  unfolding insert_from
  insert_from_succeeds zero k last w h up free = elim h [ ]
  insert_from_succeeds (suc rounds) k last w h up free =
      elim (Option-cases (find_link (id_at s.outside w.draws) w.links)) [
        | inl new ↦ let (sw, e) = try_insert-free w now_up new in (sw, rw (e, insert_from) refl)
        | inr (t, taken) ↦
            rw
              (
                ap (λ x. x.0) (try_insert-taken w t now_up taken),
                insert_from,
                ap (λ x. x.1) (try_insert-taken w t now_up taken),
              )
              (later k h up free taken
                (λ j i. insert_from_succeeds rounds j unique_violation (after_round w) i))
      ]
    where
      now_up : s.outside.down w.statements ≡ false
      now_up = subst (λ m. s.outside.down m ≡ false) (omega arith) (up 0 (omega arith))

      later :
          (k : ℕ)
          → k < suc rounds
          → ((j : ℕ) → j ≤ k → s.outside.down (w.statements + j) ≡ false)
          → find_link (id_at s.outside (w.draws + 3 * k)) w.links ≡ none
          → {t : Swosh} → find_link (id_at s.outside w.draws) w.links ≡ some t
          → ((j : ℕ)
              → j < rounds
              → ((i : ℕ) → i ≤ j → s.outside.down (w.statements + 1 + i) ≡ false)
              → find_link (id_at s.outside (w.draws + 1 + 1 + 1 + 3 * j)) w.links ≡ none
              → (sw : Swosh) × ((insert_from s rounds unique_violation n (after_round w)).0
                  ≡ ok sw))
          → (sw : Swosh) × ((insert_from s rounds unique_violation n (after_round w)).0 ≡ ok sw)
      later zero h up free taken ih =
          let here = subst (λ m. find_link (id_at s.outside m) w.links ≡ none) (free_now w) free in
          cc (taken, here)
      later (suc k) h up free taken ih = ih k (omega arith) (up_later k w up) (free_later k w free)

  -- If one of the first five ids drawn, the k-th from 0, is of no link in the table, and none of
  -- the k + 1 statements up to it fails, `insert` returns a link.
  pub insert_succeeds :
      (k : ℕ) (w : World)
      → k < 5
      → ((j : ℕ) → j ≤ k → s.outside.down (w.statements + j) ≡ false)
      → find_link (id_at s.outside (w.draws + 3 * k)) w.links ≡ none
      → (sw : Swosh) × ((insert s n w).0 ≡ ok sw)
  unfolding insert
  insert_succeeds k w h up free = insert_from_succeeds 5 k failure w h up free
