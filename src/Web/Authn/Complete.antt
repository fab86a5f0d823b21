-- ===== src/Web/Authn/Complete.antt =====
-- Which requests internal/web/authn.go takes to be made by a user.
use swosh.Common.{◌+◌, ◌<◌, ◌≡◌, ◌≢◌, true, false, some, arith, eq_iff, ok}
use swosh.Common.Bytes.{Bytes, IsBytes}
use swosh.Db
use swosh.Db.{Time, User, find_user}
use swosh.World.{World, now}
use swosh.World.Store
use swosh.Auth.Session
use swosh.Auth.Session.{Session, Crypto}
use swosh.Auth.Session.Laws.{decode-encode_session}
use swosh.Web.Http.{Request}
use swosh.Web.Server.{Server}
use swosh.Web.Authn.{session_cookie, session_principal, session_user, user_of}

-- HMAC gives bytes, and JSON of a session is bytes that are read back to the session.
pub record IsCodec (c : Crypto) (sess : Session) : Type 0 where
  pub macs : (k m : Bytes) → IsBytes (c.hmac k m)
  pub marshalled : IsBytes (c.marshal sess)
  pub read_back : c.unmarshal (c.marshal sess) ≡ some sess

module _ (s : Server) where
  user_of-found :
      (sess : Session) (w : World) (u : User)
      → s.outside.down w.statements ≡ false
      → find_user sess.username w.users ≡ some u
      → u.enabled ≡ true
      → Session.password_tag s.crypto s.key u.password ≡ sess.password
      → (user_of s (some sess) w).0
        ≡ ok (some (record { name = u.username; authorities = u.authorities; session = some sess }))
  unfolding session_principal Store.get_user_by_username Db.get_user_by_username
  user_of-found sess w u up found enabled tag =
      rw (up, Db.get_user_by_username, found)
        (ground (arith, eq_iff (Session.password_tag s.crypto s.key u.password) sess.password))

  -- A request with the cookie that `Encode` makes of a session is taken by `sessionUser` to be
  -- made by the session's user, if the time read is before the session's expiry, its user and
  -- nonce are not empty, the statement does not fail, the user's row is enabled and its password
  -- has the session's tag, the MAC and the marshalled session are bytes, and unmarshalling undoes
  -- marshalling on the session.
  pub session_user-encode :
      (r : Request) (w : World) (u : User) (sess : Session)
      → r.cookie session_cookie ≡ some (Session.encode s.crypto s.key sess)
      → IsCodec s.crypto sess
      → sess.username ≢ ""
      → sess.nonce ≢ ""
      → s.outside.clock w.readings < sess.expires
      → s.outside.down w.statements ≡ false
      → find_user sess.username w.users ≡ some u
      → u.enabled ≡ true
      → Session.password_tag s.crypto s.key u.password ≡ sess.password
      → (session_user s r w).0
        ≡ ok (some (record { name = u.username; authorities = u.authorities; session = some sess }))
  unfolding session_user now
  session_user-encode r w u sess sent codec named drawn live up found enabled tag =
      let decoded =
        decode-encode_session s.crypto s.key sess (s.outside.clock w.readings) codec.macs
          codec.marshalled codec.read_back named drawn live in
      rw (sent, session_user)
        (rw decoded
          (user_of-found sess (record w { readings = w.readings + 1 }) u up found enabled tag))
