-- ===== src/Auth/Session/Laws.antt =====
-- What a session cookie and a CSRF token of internal/auth/session.go prove.
use Prim.Native.String
use Prim.Native.String.{String}
use swosh.Common.{
  ◌<◌, ◌≡◌, refl, ap, ◌≢◌, ◌↔◌, true, false, Option, none, some, [], ◌∷◌, arith, eq_iff,
}
use swosh.Common.Bytes.{Bytes, IsBytes}
use swosh.Auth.Base64
use swosh.Auth.Base64.Laws.{decode-encode, has_dot, encode-no_dot}
use swosh.Auth.Session.{
  open_parts, Session, Crypto, bytes_equal, cut, mac, encode, check_payload, open_payload,
  is_signature, decode, check_csrf_token,
}
use swosh.Db.{Time}
use text.Mathlib.TextLemmas.{nil-append, cons-append}

pub bytes_equal_iff : (xs ys : Bytes) → (bytes_equal xs ys ≡ true) ↔ (xs ≡ ys)
unfolding bytes_equal
bytes_equal_iff [] [] = (λ _. refl, λ _. refl)
bytes_equal_iff [] (y ∷ ys) = ground arith
bytes_equal_iff (x ∷ xs) [] = ground arith
bytes_equal_iff (x ∷ xs) (y ∷ ys) = ground (arith, bytes_equal_iff xs ys)

cut-append :
    (p s : String) → has_dot p ≡ false → cut (String.◌++◌ p (String.◌++◌ "." s)) ≡ some (p, s)
unfolding cut
cut-append String.[] s h = rw nil-append (rw cons-append (rw nil-append refl))
cut-append (String.◌∷◌ c p) s h = rw cons-append (ground (arith, cut-append p s (ground arith)))

module _ (c : Crypto) (key : Bytes) where
  -- `Decode` gives back the session that `Encode` has made a cookie of, before the session's
  -- expiry, if its user and nonce are not empty, the MAC and the marshalled session are bytes, and
  -- unmarshalling undoes marshalling on it.
  pub decode-encode_session :
      (sess : Session) (now : Time)
      → ((k m : Bytes) → IsBytes (c.hmac k m))
      → IsBytes (c.marshal sess)
      → c.unmarshal (c.marshal sess) ≡ some sess
      → sess.username ≢ ""
      → sess.nonce ≢ ""
      → now < sess.expires
      → decode c key (encode c key sess) now ≡ some sess
  unfolding encode decode
  decode-encode_session sess now macs bytes read user nonce live =
      let p = Base64.encode (c.marshal sess) in
      rw
        (
          cut-append p (Base64.encode (mac c key "session" p))
              (encode-no_dot (c.marshal sess) bytes),
          decode,
          decode-encode (mac c key "session" p) (macs key _),
          (bytes_equal_iff (mac c key "session" p) (mac c key "session" p)).1 refl,
          decode-encode (c.marshal sess) bytes,
          read,
        )
        (ground (arith, eq_iff sess.username "", eq_iff sess.nonce ""))

  -- What `Decode` has checked of a cookie that it accepts.
  pub record IsSigned (value : String) (now : Time) (sess : Session) : Type 0 where
    pub p : String
    pub sig : String
    pub payload : Bytes
    pub parts : cut value ≡ some (p, sig)
    pub signed : Base64.decode sig ≡ some (mac c key "session" p)
    pub encoded : Base64.decode p ≡ some payload
    pub read : c.unmarshal payload ≡ some sess
    pub user : sess.username ≢ ""
    pub nonce : sess.nonce ≢ ""
    pub live : now < sess.expires

  is_signature_sound :
      (p : String) (o : Option Bytes)
      → is_signature c key p o ≡ true
      → o ≡ some (mac c key "session" p)
  is_signature_sound p none h = cc
  is_signature_sound p (some got) h = ap some ((bytes_equal_iff _ _).0 h)

  check_payload_sound :
      (now : Time) (o : Option Session) (sess : Session)
      → check_payload c key now o ≡ some sess
      → (o ≡ some sess) × (sess.username ≢ "") × (sess.nonce ≢ "") × (now < sess.expires)
  check_payload_sound now none sess h = cc
  check_payload_sound now (some s) sess h =
      let same : s ≡ sess = ground arith in
      rw (← same) (
        refl,
        ground (arith, eq_iff s.username ""),
        ground (arith, eq_iff s.nonce ""),
        ground arith,
      )

  open_payload_sound :
      (now : Time) (o : Option Bytes) (sess : Session)
      → open_payload c key now o ≡ some sess
      → (payload : Bytes) × (o ≡ some payload)
        × (check_payload c key now (c.unmarshal payload) ≡ some sess)
  open_payload_sound now none sess h = cc
  open_payload_sound now (some payload) sess h = (payload, refl, h)

  open_parts_sound :
      (value : String) (now : Time) (sess : Session) (o : Option (String × String))
      → cut value ≡ o
      → open_parts c key now o ≡ some sess
      → IsSigned value now sess
  open_parts_sound value now sess none parts h = cc
  open_parts_sound value now sess (some (p, sig)) parts h =
      let (payload, encoded, checked) =
        open_payload_sound now (Base64.decode p) sess (ground arith) in
      let (read, user, nonce, live) = check_payload_sound now (c.unmarshal payload) sess checked in
      record {
        p = p;
        sig = sig;
        payload = payload;
        parts = parts;
        signed = is_signature_sound p (Base64.decode sig) (ground arith);
        encoded = encoded;
        read = read;
        user = user;
        nonce = nonce;
        live = live;
      }

  -- `Decode` accepts a cookie as a session at a time exactly if the cookie is a payload, a dot and
  -- the MAC of the payload for sessions under the key, both in base64, and the payload holds that
  -- session, with a user and a nonce that are not empty and an expiry after the time.
  pub decode_iff :
      (value : String) (now : Time) (sess : Session)
      → (decode c key value now ≡ some sess) ↔ IsSigned value now sess
  unfolding decode
  decode_iff value now sess = (
    open_parts_sound value now sess (cut value) refl,
    λ s.
        let same = (bytes_equal_iff (mac c key "session" s.p) (mac c key "session" s.p)).1 refl in
        rw (s.parts, decode, s.signed, same, s.encoded, s.read)
          (ground (arith, eq_iff sess.username "", eq_iff sess.nonce "", s.user, s.nonce, s.live)),
  )

  -- `CheckCSRFToken` accepts a token for a session exactly if the token decodes from base64 to the
  -- MAC of the session's nonce for forms under the key.
  pub check_csrf_token_iff :
      (sess : Session) (token : String)
      → (check_csrf_token c key sess token ≡ true)
        ↔ (Base64.decode token ≡ some (mac c key "csrf" sess.nonce))
  unfolding check_csrf_token
  check_csrf_token_iff sess token = grind (arith, bytes_equal_iff)
