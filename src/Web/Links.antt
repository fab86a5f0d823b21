-- ===== src/Web/Links.antt =====
-- internal/web/web.go: `lookup` and `touch`, on which the public pages of a link rest.
pub mod Laws
pub mod Swept
use swosh.Common.{
  ℕ, zero, suc, ◌+◌, ◌-◌, ◌*◌, ◌/◌, ◌%◌, ◌^◌, ◌≤◌, ◌<◌, Char, code, String, len, ◌≡◌, refl, sym, ap,
  ◌∙◌, subst, ◌≢◌, ◌↔◌, ◌⊎◌, inl, inr, Bool, true, false, not, ◌&&◌, ◌||◌, Option, none, some, List,
  [], ◌∷◌, ◌++◌, map, arith, ◌==◌, eq_iff, eq_refl, ltb, leb, eqb, if◌then◌else◌, ltb→lt, lt→ltb,
  leb→le, eqb_iff, Bool-cases, Option-cases, Result, ok, err, Result-cases, length, get_or, all,
  length-append, All, contains,
}
use swosh.Db.{Time, Swosh, DbError, no_rows}
use swosh.World.{Action, pure, ◌>>=◌, ◌>>◌, now}
use swosh.World.Store
use swosh.Auth.Users.{role_admin}
use swosh.Web.Http.{Request, Response, Page, not_found_html, new_response, http_error, status_text}
use swosh.Web.Server.{Server, render_status, server_error}
use swosh.Web.Authn.{Principal, current_user, has}

module _ (s : Server) where
  abbrev pub is_admin : Option Principal → Bool
  is_admin none = false
  is_admin (some p) = has p role_admin

  -- A failure to record the access is only logged.
  abbrev pub record_access : String → Action (Unit {0})
  record_access id = do t ← now s.outside; _ ← Store.touch_swosh s.outside t id; pure tt

  unfoldable pub touch : Request → String → Action (Unit {0})
  unfolding current_user now Store.touch_swosh
  touch r id = do p ← current_user s r; if is_admin p then pure tt else record_access id

  -- The not found page, for a link that is unknown or has expired.
  abbrev pub not_found : Request → Result Response Swosh
  not_found r = err (render_status s r 404 not_found_html new_response)

  abbrev pub serve_link : Request → Swosh → Action (Result Response Swosh)
  serve_link r sw = do _ ← touch r sw.id; pure (ok sw)

  -- The link is served if `expires` is none or after the time that is read for the comparison.
  abbrev pub unless_expired : Request → Swosh → Option Time → Action (Result Response Swosh)
  unless_expired r sw none = serve_link r sw
  unless_expired r sw (some e) = do
    t ← now s.outside
    if ltb t e then serve_link r sw else pure (not_found r)

  abbrev pub found_link : Request → Result DbError Swosh → Action (Result Response Swosh)
  found_link r (err no_rows) = pure (not_found r)
  found_link r (err e) = pure (err (http_error (status_text 500) 500 new_response))
  found_link r (ok sw) = unless_expired r sw sw.expires_on

  -- The link to go on with, or the answer that has been written.
  unfoldable pub lookup : Request → Action (Result Response Swosh)
  unfolding touch now Store.get_swosh render_status http_error
  lookup r = do found ← Store.get_swosh s.outside r.path_id; found_link r found
