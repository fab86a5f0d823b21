-- ===== src/Expiry.antt =====
-- internal/expiry/expiry.go: the job that deletes expired links.
pub mod Laws
use swosh.Common.{
  ℕ, zero, suc, ◌+◌, ◌-◌, ◌*◌, ◌/◌, ◌%◌, ◌^◌, ◌≤◌, ◌<◌, Char, code, String, len, ◌≡◌, refl, sym, ap,
  ◌∙◌, subst, ◌≢◌, ◌↔◌, ◌⊎◌, inl, inr, Bool, true, false, not, ◌&&◌, ◌||◌, Option, none, some, List,
  [], ◌∷◌, ◌++◌, map, arith, ◌==◌, eq_iff, eq_refl, ltb, leb, eqb, if◌then◌else◌, ltb→lt, lt→ltb,
  leb→le, eqb_iff, Bool-cases, Option-cases, Result, ok, err, Result-cases, length, get_or, all,
  length-append, All, contains,
}
use swosh.Db.{DbError}
use swosh.World.{World, Action, Outside, pure, ◌>>=◌, ◌>>◌, now}
use swosh.World.Store

module _ (o : Outside) where
  -- What `Sweep` makes of the answer: the metric of expired links counts the ids.
  abbrev pub count_expired : Result DbError (List String) → Action (Unit {0})
  count_expired (err e) w = (tt, w)
  count_expired (ok ids) w = (tt, record w { expired_links = w.expired_links + length ids })

  -- `Sweep`
  unfoldable pub sweep : Action (Unit {0})
  unfolding now Store.delete_expired_swoshes
  sweep = do t ← now o; ids ← Store.delete_expired_swoshes o t; count_expired ids

  -- `Run` for as many ticks of its timer as come before the context is cancelled.
  unfoldable pub run : ℕ → Action (Unit {0})
  unfolding sweep
  run zero w = (tt, w)
  run (suc ticks) w = run ticks (sweep w).1
