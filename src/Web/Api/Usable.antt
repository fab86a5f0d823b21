-- ===== src/Web/Api/Usable.antt =====
-- The ids of the links that POST /api/create of internal/web/web.go makes.
use swosh.Common.{
  ℕ, zero, suc, ◌+◌, ◌<◌, String, ◌≡◌, refl, subst, inl, inr, true, false, Option, none, some,
  Bool-cases, Option-cases, Result, ok, err,
}
use swosh.Db
use swosh.Db.{Swosh, DbError, unique_violation, no_rows, failure, find_link}
use swosh.World.{World, Outside, now}
use swosh.World.Store
use swosh.Linkid.{new_id}
use swosh.Web.Create.{CreateRequest, NewSwosh, ValidationError, validate}
use swosh.Web.Http.{Request, Body, created}
use swosh.Web.Server.{Server}
use swosh.Web.Admin.{valid_id, reserved_ids, is_reserved}
use swosh.Web.Admin.Ids.{new_id-usable}
use swosh.Web.Api.{
  try_insert, insert_from, insert, create_failed, insert_answer, validated, decoded, parsed, create,
}

-- An id that the site's routes do not take for something else.
abbrev pub IsUsable : String → Type 0
IsUsable id = (valid_id id ≡ true) × (is_reserved reserved_ids id ≡ false)

abbrev HasUsable : Result DbError Swosh → Type 0
HasUsable (ok sw) = IsUsable sw.id
HasUsable (err e) = Unit {0}

abbrev IsOfUsable : Body → Type 0
IsOfUsable (created id url) = IsUsable id
IsOfUsable b = Unit {0}

-- The random numbers are below their bounds.
abbrev pub IsBelow : Outside → Type 0
IsBelow o = (n max : ℕ) → 0 < max → o.rand_int n max < max

module _ (s : Server) (below : IsBelow s.outside) where
  try_insert-HasUsable : (n : NewSwosh) (w : World) → HasUsable (try_insert s n w).0
  unfolding try_insert Store.create_swosh Db.create_swosh
  try_insert-HasUsable n w =
      let (id, w') = new_id s.outside w in
      elim (Bool-cases (s.outside.down w'.statements)) [
        | inl fails ↦ rw fails tt
        | inr runs ↦ rw runs (elim (Option-cases (find_link id w'.links)) [
          | inl free ↦ rw (free, Db.create_swosh) (new_id-usable s.outside w below)
          | inr (sw, taken) ↦ rw (taken, Db.create_swosh) tt
        ])
      ]

  insert_from-HasUsable :
      (rounds : ℕ) (last : DbError) (n : NewSwosh) (w : World)
      → HasUsable (insert_from s rounds last n w).0
  unfolding insert_from
  insert_from-HasUsable zero last n w = tt
  insert_from-HasUsable (suc rounds) last n w =
      again (try_insert s n w).0 refl (try_insert-HasUsable n w)
        (insert_from-HasUsable rounds unique_violation n (try_insert s n w).1)
    where
      again :
          (r : Result DbError Swosh)
          → (try_insert s n w).0 ≡ r
          → HasUsable r
          → HasUsable (insert_from s rounds unique_violation n (try_insert s n w).1).0
          → HasUsable (insert_from s (suc rounds) last n w).0
      again (ok sw) e h rest = rw (e, insert_from) h
      again (err unique_violation) e h rest = rw (e, insert_from) rest
      again (err no_rows) e h rest = rw (e, insert_from) tt
      again (err failure) e h rest = rw (e, insert_from) tt

  answer-IsOfUsable :
      (r : Request) (found : Result DbError Swosh) (w : World)
      → HasUsable found
      → IsOfUsable (insert_answer s r found w).0.body
  unfolding create_failed
  answer-IsOfUsable r (ok sw) w h = h
  answer-IsOfUsable r (err e) w h = tt

  decoded-IsOfUsable :
      (r : Request) (o : Option CreateRequest) (w : World) → IsOfUsable (decoded s r o w).0.body
  unfolding create_failed now insert
  decoded-IsOfUsable r none w = tt
  decoded-IsOfUsable r (some req) w = stored (validate s.phones req (s.outside.clock w.readings))
    where
      stored :
          (v : Result ValidationError NewSwosh)
          → IsOfUsable (validated s r v (record w { readings = w.readings + 1 })).0.body
      stored (err e) = tt
      stored (ok n) =
          answer-IsOfUsable r _ _
            (insert_from-HasUsable 5 failure n (record w { readings = w.readings + 1 }))

  -- If POST /api/create answers with a link, its id is usable.
  pub create-IsUsable :
      (r : Request) (w : World) {id url : String}
      → (create s r w).0.body ≡ created id url
      → IsUsable id
  unfolding create
  create-IsUsable r w e = subst IsOfUsable e (decoded-IsOfUsable r (parsed s r.create_body) w)
