-- ===== src/Auth/Session.antt =====
-- internal/auth/session.go: signed session cookies and CSRF tokens.
pub mod Laws
use Prim.Native.String
use Prim.Native.String.{String}
use swosh.Db.{second}
use swosh.Common.{
  ℕ, zero, suc, ◌+◌, ◌-◌, ◌*◌, ◌/◌, ◌%◌, ◌^◌, ◌≤◌, ◌<◌, Char, code, len, ◌≡◌, refl, sym, ap, ◌∙◌,
  subst, ◌≢◌, ◌↔◌, ◌⊎◌, inl, inr, Bool, true, false, not, ◌&&◌, ◌||◌, Option, none, some, List, [],
  ◌∷◌, ◌++◌, map, arith, ◌==◌, eq_iff, eq_refl, ltb, leb, eqb, if◌then◌else◌, ltb→lt, lt→ltb,
  leb→le, eqb_iff, Bool-cases, Option-cases, Result, ok, err, Result-cases, length, get_or, all,
  length-append, All, contains,
}
use swosh.Common.Bytes.{Bytes, utf8, take}
use swosh.Auth.Base64
use swosh.Db.{Time}

pub record Session : Type 0 where
  pub username : String
  pub expires : Time
  pub nonce : String
  pub password : String

-- HMAC-SHA256 of a key and a message, and encoding/json on a `Session`, whose time it writes in
-- RFC 3339.
pub record Crypto : Type 0 where
  pub hmac : Bytes → Bytes → Bytes
  pub marshal : Session → Bytes
  pub unmarshal : Bytes → Option Session

-- `hmac.Equal`
unfoldable pub bytes_equal : Bytes → Bytes → Bool
bytes_equal [] [] = true
bytes_equal (a ∷ as') (b ∷ bs) = eqb a b && bytes_equal as' bs
bytes_equal _ _ = false

-- `strings.Cut(s, ".")`
unfoldable pub cut : String → Option (String × String)
cut String.[] = none
cut (String.◌∷◌ c s) =
    let rest = cut s in
    if eqb (code c) b'.'
    then some ("", s)
    else elim rest [ none ↦ none | some (before, after) ↦ some (String.◌∷◌ c before, after) ]

-- What is signed: the purpose, a zero byte and the value.
abbrev pub mac_message : String → String → Bytes
mac_message purpose value = utf8 purpose ++ 0 ∷ utf8 value

-- The methods of a `Signer` with a key.
module _ (c : Crypto) (key : Bytes) where
  unfoldable pub mac : String → String → Bytes
  mac purpose value = c.hmac key (mac_message purpose value)

  unfoldable pub password_tag : String → String
  unfolding mac
  password_tag password_hash = Base64.encode (take 16 (mac "password" password_hash))

  -- `New`: `nonce` is the text of 16 random bytes.
  unfoldable pub new_session : String → String → Time → String → Session
  unfolding password_tag
  new_session username password_hash expires nonce = record {
    username = username;
    expires = expires - expires % second;
    nonce = nonce;
    password = password_tag password_hash;
  }

  unfoldable pub encode : Session → String
  unfolding mac
  encode sess =
      let p = Base64.encode (c.marshal sess) in
      String.◌++◌ p (String.◌++◌ "." (Base64.encode (mac "session" p)))

  abbrev pub check_payload : Time → Option Session → Option Session
  check_payload now none = none
  check_payload now (some sess) =
      if sess.username == "" || sess.nonce == ""
      then none
      else if ltb now sess.expires
      then some sess
      else none

  -- The payload behind a signature that fits.
  abbrev pub open_payload : Time → Option Bytes → Option Session
  open_payload now none = none
  open_payload now (some payload) = check_payload now (c.unmarshal payload)

  abbrev pub is_signature : String → Option Bytes → Bool
  is_signature p none = false
  is_signature p (some got) = bytes_equal got (mac "session" p)

  abbrev pub open_parts : Time → Option (String × String) → Option Session
  open_parts now none = none
  open_parts now (some (p, sig)) =
      if is_signature p (Base64.decode sig) then open_payload now (Base64.decode p) else none

  -- `Decode`; `none` is ErrInvalidSession.
  unfoldable pub decode : String → Time → Option Session
  decode value now = open_parts now (cut value)

  unfoldable pub csrf_token : Session → String
  unfolding mac
  csrf_token sess = Base64.encode (mac "csrf" sess.nonce)

  unfoldable pub check_csrf_token : Session → String → Bool
  unfolding mac
  check_csrf_token sess token = elim (Base64.decode token) [
    | none ↦ false
    | some got ↦ bytes_equal got (mac "csrf" sess.nonce)
  ]
