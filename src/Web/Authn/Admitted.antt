-- ===== src/Web/Authn/Admitted.antt =====
-- That who logs in on internal/web/authn.go can use the admin pages.
use swosh.Common.{
  ◌+◌, ◌<◌, ◌≡◌, refl, ◌∙◌, ◌≢◌, ◌⊎◌, true, false, not, ◌&&◌, some, [], ◌∷◌, arith, ◌==◌, eq_iff,
  ok, contains,
}
use Prim.Native.String.{String}
use swosh.Common.Bytes.{Bytes, IsBytes}
use swosh.Common.Text.{or_empty}
use swosh.Db.{User, find_user}
use swosh.World.{World}
use swosh.Auth.Base64.Laws.{decode-encode}
use swosh.Auth.Session
use swosh.Auth.Session.{Session, mac}
use swosh.Auth.Session.Laws.{check_csrf_token_iff}
use swosh.Auth.Users
use swosh.Auth.Users.{role_admin}
use swosh.Auth.Users.Laws.{login_iff}
use swosh.Web.Http.{Request, new_response, set_header, same_origin}
use swosh.Web.Server.{Server}
use swosh.Web.Authn.{
  session_cookie, Principal, session_user, authenticate, sent_token, csrf_ok, AdminHandler, admin,
  csrf_token,
}
use swosh.Web.Authn.Complete.{IsCodec, session_user-encode}
use swosh.Web.Login.{session_ttl, session_cookie_of, login}
use swosh.Web.Login.Outcome.{login-IsLoggedIn}

module _ (s : Server) where
  csrf_ok-token :
      (r : Request) (sess : Session)
      → ((k m : Bytes) → IsBytes (s.crypto.hmac k m))
      → sent_token s r ≡ Session.csrf_token s.crypto s.key sess
      → csrf_ok s r (some sess) ≡ true
  unfolding Session.csrf_token
  csrf_ok-token r sess macs sent =
      let fits =
        (check_csrf_token_iff s.crypto s.key sess (sent_token s r)).1
          (rw sent (decode-encode (mac s.crypto s.key "csrf" sess.nonce) (macs s.key _))) in
      ground (arith, fits)

  -- The principal of a session.
  abbrev pub of_session : User → Session → Principal
  of_session u sess = record { name = u.username; authorities = u.authorities; session = some sess }

  -- A request with a session is admitted if it has what the checks of `admin` want.
  admin-session :
      (authority : String) (h : AdminHandler s) (r : Request) (w : World) (u : User)
      (sess : Session)
      → (session_user s r w).0 ≡ ok (some (of_session u sess))
      → same_origin r ≡ true
      → contains u.authorities role_admin ≡ true
      → (authority ≡ "") ⊎ (contains u.authorities authority ≡ true)
      → csrf_ok s r (some sess) ≡ true
      → admin s authority h r w
        ≡ h
            (set_header "Cache-Control" "no-store" new_response)
            r
            (of_session u sess)
            (session_user s r w).1
  unfolding admin authenticate
  admin-session authority h r w u sess known origin role may token =
      let allowed : (not (authority == "") && not (contains u.authorities authority)) ≡ false =
        ground (arith, eq_iff authority "") in
      rw (origin, admin) (rw known (rw (role, allowed, token) refl))

  -- The session that a login makes.
  abbrev pub session_of : User → World → Session
  session_of u w =
      Session.new_session s.crypto s.key u.username u.password
        (s.outside.clock w.readings + session_ttl) (s.outside.rand_nonce w.draws)

  -- A same-origin login that `Login` accepts sets the cookie of a session of the user, and `admin`
  -- then runs its handler, as that user, for every same-origin request that has this cookie before
  -- the session's expiry and the token that the pages of the session carry, if the user, whose
  -- name is not empty, is still in the table as before and has ROLE_ADMIN and the authority that
  -- is wanted, the statement does not fail, the nonce is not empty, and the session's JSON is read
  -- back.
  pub login-admits :
      (sign_in : Request) (before : World) (u : User) (authority : String) (h : AdminHandler s)
      (r : Request) (w : World)
      → same_origin sign_in ≡ true
      → (Users.login s.outside s.bcrypt
          (or_empty (sign_in.post_form "username"))
          (or_empty (sign_in.post_form "password"))
          before).0
        ≡ ok u
      → IsCodec s.crypto (session_of u before)
      → u.username ≢ ""
      → s.outside.rand_nonce before.draws ≢ ""
      → r.cookie session_cookie ≡ some (Session.encode s.crypto s.key (session_of u before))
      → s.outside.clock w.readings < (session_of u before).expires
      → s.outside.down w.statements ≡ false
      → find_user u.username w.users ≡ some u
      → same_origin r ≡ true
      → contains u.authorities role_admin ≡ true
      → (authority ≡ "") ⊎ (contains u.authorities authority ≡ true)
      → sent_token s r ≡ csrf_token s (of_session u (session_of u before))
      → ((login s sign_in before).0.cookies
          ≡ session_cookie_of s
              (Session.encode s.crypto s.key (session_of u before))
              (session_of u before).expires
            ∷ [])
        × (admin s authority h r w
            ≡ h
                (set_header "Cache-Control" "no-store" new_response)
                r
                (of_session u (session_of u before))
                (session_user s r w).1)
  unfolding csrf_token Session.new_session
  login-admits sign_in before u authority h r w there accepted codec named drawn sent live up found
        origin role may token =
      let sess = session_of u before in
      let (here, same) = login-IsLoggedIn s sign_in before u there accepted in
      let passed = (login_iff s.outside s.bcrypt _ _ before u).0 accepted in
      (
        here.cookie ∙ rw same refl,
        admin-session authority h r w u sess
            (session_user-encode s r w u sess sent codec named drawn live up found passed.3 refl)
            origin role may (csrf_ok-token r sess codec.macs token),
      )
