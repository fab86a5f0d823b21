-- ===== src/Web/Api/Insert.antt =====
-- What `insert` of internal/web/web.go does to the table of links.
use swosh.Common.{
  ℕ, zero, suc, ◌≡◌, refl, ◌∙◌, inl, inr, none, [], ◌∷◌, ◌++◌, arith, Bool-cases, Result, ok, err,
}
use swosh.Db
use swosh.Db.{Swosh, DbError, unique_violation, no_rows, failure, find_link}
use swosh.Db.Keys.{IsKeyed, create_swosh-IsKeyed}
use swosh.World.{World, Outside, random}
use swosh.World.Store
use swosh.Linkid.{pick, new_id}
use swosh.Web.Create.{NewSwosh}
use swosh.Web.Server.{Server}
use swosh.Web.Api.{try_insert, insert_from, insert}

-- The row holds the new link, and nobody has opened it.
pub record IsRowOf (n : NewSwosh) (sw : Swosh) : Type 0 where
  pub payee : sw.payee ≡ n.payee
  pub amount : sw.amount ≡ n.amount
  pub description : sw.description ≡ n.description
  pub expires_on : sw.expires_on ≡ n.expires_on
  pub payee_editable : sw.payee_editable ≡ n.payee_editable
  pub amount_editable : sw.amount_editable ≡ n.amount_editable
  pub message_editable : sw.message_editable ≡ n.message_editable
  pub last_accessed_at : sw.last_accessed_at ≡ none

-- Users and counters are as they were.
pub record SameRest (w w' : World) : Type 0 where
  pub users : w'.users ≡ w.users
  pub success : w'.create_success ≡ w.create_success
  pub failed : w'.create_failed ≡ w.create_failed
  pub expired : w'.expired_links ≡ w.expired_links

SameRest-trans : {a b c : World} → SameRest a b → SameRest b c → SameRest a c
SameRest-trans p q = record {
  users = q.users ∙ p.users;
  success = q.success ∙ p.success;
  failed = q.failed ∙ p.failed;
  expired = q.expired ∙ p.expired;
}

-- A link is added under an id that was free, and no other row changes; or no row changes.
abbrev pub Inserted : NewSwosh → World → Result DbError Swosh → World → Type 0
Inserted n w (ok sw) w' =
    (find_link sw.id w.links ≡ none) × (w'.links ≡ w.links ++ sw ∷ []) × IsRowOf n sw
Inserted n w (err e) w' = w'.links ≡ w.links

new_id-SameRest :
    (o : Outside) (w : World) → SameRest w (new_id o w).1 × ((new_id o w).1.links ≡ w.links)
unfolding new_id pick random
new_id-SameRest o w = (record { users = refl; success = refl; failed = refl; expired = refl }, refl)

module _ (s : Server) (n : NewSwosh) where
  try_insert-SameRest : (w : World) → SameRest w (try_insert s n w).1
  unfolding try_insert Store.create_swosh
  try_insert-SameRest w = ground (arith, (new_id-SameRest s.outside w).0)

  try_insert-Inserted : (w : World) → Inserted n w (try_insert s n w).0 (try_insert s n w).1
  unfolding try_insert Store.create_swosh Db.create_swosh
  try_insert-Inserted w = ground (arith, (new_id-SameRest s.outside w).1)

  insert_from-SameRest :
      (rounds : ℕ) (last : DbError) (w : World) → SameRest w (insert_from s rounds last n w).1
  unfolding insert_from
  insert_from-SameRest zero last w = record {
    users = refl;
    success = refl;
    failed = refl;
    expired = refl;
  }
  insert_from-SameRest (suc rounds) last w = ground (
    arith,
    try_insert-SameRest w,
    insert_from-SameRest rounds unique_violation (try_insert s n w).1,
  )

  insert_from-Inserted :
      (rounds : ℕ) (last : DbError) (w : World)
      → Inserted n w (insert_from s rounds last n w).0 (insert_from s rounds last n w).1
  unfolding insert_from
  insert_from-Inserted zero last w = refl
  insert_from-Inserted (suc rounds) last w = ground (
    arith,
    try_insert-Inserted w,
    insert_from-Inserted rounds unique_violation (try_insert s n w).1,
  )

  -- Storing a link either adds exactly that link, under an id that no link had, or changes no
  -- link; whichever it does, users and counters stay.
  pub insert-Inserted :
      (w : World) → Inserted n w (insert s n w).0 (insert s n w).1 × SameRest w (insert s n w).1
  unfolding insert
  insert-Inserted w = (insert_from-Inserted 5 failure w, insert_from-SameRest 5 failure w)

  try_insert-IsKeyed : (w : World) → IsKeyed w.links → IsKeyed (try_insert s n w).1.links
  unfolding try_insert Store.create_swosh
  try_insert-IsKeyed w keyed =
      let (id, w') = new_id s.outside w in
      let e = (new_id-SameRest s.outside w).1 in
      elim (Bool-cases (s.outside.down w'.statements)) [
        | inl fails ↦ rw fails (rw e keyed)
        | inr runs ↦ rw runs (create_swosh-IsKeyed _ _ w'.links (rw e keyed))
      ]

  insert_from-IsKeyed :
      (rounds : ℕ) (last : DbError) (w : World)
      → IsKeyed w.links
      → IsKeyed (insert_from s rounds last n w).1.links
  unfolding insert_from
  insert_from-IsKeyed zero last w keyed = keyed
  insert_from-IsKeyed (suc rounds) last w keyed = ground (
    arith,
    try_insert-IsKeyed w keyed,
    insert_from-IsKeyed rounds unique_violation (try_insert s n w).1,
  )

  -- If no two links share an id, `insert` leaves no two links with one id, whatever statements
  -- fail.
  pub insert-IsKeyed : (w : World) → IsKeyed w.links → IsKeyed (insert s n w).1.links
  unfolding insert
  insert-IsKeyed w keyed = insert_from-IsKeyed 5 failure w keyed
