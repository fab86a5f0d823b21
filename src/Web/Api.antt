-- ===== src/Web/Api.antt =====
-- internal/web/web.go: POST /api/create.
pub mod Insert
pub mod Usable
pub mod Retry
pub mod Outcome
pub mod Explained
use swosh.Common.{
  ℕ, zero, suc, ◌+◌, ◌-◌, ◌*◌, ◌/◌, ◌%◌, ◌^◌, ◌≤◌, ◌<◌, Char, code, String, len, ◌≡◌, refl, sym, ap,
  ◌∙◌, subst, ◌≢◌, ◌↔◌, ◌⊎◌, inl, inr, Bool, true, false, not, ◌&&◌, ◌||◌, Option, none, some, List,
  [], ◌∷◌, ◌++◌, map, arith, ◌==◌, eq_iff, eq_refl, ltb, leb, eqb, if◌then◌else◌, ltb→lt, lt→ltb,
  leb→le, eqb_iff, Bool-cases, Option-cases, Result, ok, err, Result-cases, length, get_or, all,
  length-append, All, contains,
}
use swosh.Db.{Swosh, DbError, unique_violation, no_rows, failure}
use swosh.World.{Action, pure, ◌>>=◌, ◌>>◌, now}
use swosh.World.Store
use swosh.Linkid.{new_id}
use swosh.Web.Create.{CreateRequest, NewSwosh, ValidationError, validate}
use swosh.Web.Create.Decode.{CreateBody, decode}
use swosh.Web.I18n.{Lang, Arg, tr}
use swosh.Web.Http.{Request, Response, Body, created, refused, new_response, set_header, add_header}
use swosh.Web.Server.{Server, request_lang, vary_lang, base_url}

abbrev pub create_attempts : ℕ
create_attempts = 5

module _ (s : Server) where
  -- One round of the loop of `insert`: a new random id, and the row under it.
  unfoldable pub try_insert : NewSwosh → Action (Result DbError Swosh)
  try_insert n = do
    id ← new_id s.outside
    Store.create_swosh s.outside (record {
      id = id;
      payee = n.payee;
      amount = n.amount;
      description = n.description;
      expires_on = n.expires_on;
      payee_editable = n.payee_editable;
      amount_editable = n.amount_editable;
      message_editable = n.message_editable;
    })

  -- The loop, with the rounds left and the error of the last one.
  unfoldable pub insert_from : ℕ → DbError → NewSwosh → Action (Result DbError Swosh)
  insert_from zero last n w = (err last, w)
  insert_from (suc rounds) last n w =
      let (r, w') = try_insert n w in
      elim r [
        | ok sw ↦ (ok sw, w')
        | err unique_violation ↦ insert_from rounds unique_violation n w'
        | err no_rows ↦ (err no_rows, w')
        | err failure ↦ (err failure, w')
      ]

  unfoldable pub insert : NewSwosh → Action (Result DbError Swosh)
  insert n = insert_from create_attempts failure n

  -- `writeJSON`
  abbrev pub write_json : ℕ → Body → Response → Response
  write_json code b w = record (set_header "Content-Type" "application/json" w) {
    status = code;
    body = b;
  }

  -- `createFailed`
  unfoldable pub create_failed : ℕ → Option String → String → Action Response
  unfolding set_header add_header
  create_failed code reason field w = (
    write_json code (refused reason field) (vary_lang s new_response),
    record w { create_failed = w.create_failed + 1 },
  )

  abbrev pub insert_answer : Request → Result DbError Swosh → Action Response
  insert_answer r (err e) = create_failed 500 (tr (request_lang s r) "api.failed" []) ""
  insert_answer r (ok sw) = λ w. (
    write_json 200
        (created sw.id (Prim.Native.String.◌++◌ (base_url s) (Prim.Native.String.◌++◌ "/" sw.id)))
        new_response,
    record w { create_success = w.create_success + 1 },
  )

  abbrev pub validated : Request → Result ValidationError NewSwosh → Action Response
  validated r (err v) = create_failed 400 (tr (request_lang s r) v.key v.args) v.field
  validated r (ok n) = do sw ← insert n; insert_answer r sw

  abbrev pub decoded : Request → Option CreateRequest → Action Response
  decoded r none = create_failed 400 (tr (request_lang s r) "api.badinput" []) ""
  decoded r (some req) = do t ← now s.outside; validated r (validate s.phones req t)

  abbrev pub parsed : Option CreateBody → Option CreateRequest
  parsed none = none
  parsed (some b) = decode b

  -- The handler `create`
  unfoldable pub create : Request → Action Response
  unfolding create_failed insert now
  create r = decoded r (parsed r.create_body)
