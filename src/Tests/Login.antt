-- ===== src/Tests/Login.antt =====
-- The theorem on a login and the admin pages behind it, at the small site, with tests of redirects and
-- of the decoding of amounts.
use swosh.Common.Text.Location.{location}
use swosh.Web.Create.Decode.{null, number, quoted, set_each, unmarshal_int, zero_int}
use swosh.Common.{
  ℕ, zero, suc, ◌+◌, ◌-◌, ◌*◌, ◌/◌, ◌%◌, ◌^◌, ◌≤◌, ◌<◌, Char, code, len, ◌≡◌, refl, sym, ap, ◌∙◌,
  subst, ◌≢◌, ◌↔◌, ◌⊎◌, inl, inr, Bool, true, false, not, ◌&&◌, ◌||◌, Option, none, some, List, [],
  ◌∷◌, ◌++◌, map, arith, ◌==◌, eq_iff, eq_refl, ltb, leb, eqb, if◌then◌else◌, ltb→lt, lt→ltb,
  leb→le, eqb_iff, Bool-cases, Option-cases, Result, ok, err, Result-cases, length, get_or, all,
  length-append, All, contains,
}
use Prim.Native.String.{String}
use swosh.World.{World}
use swosh.Common.Int.{pos}
use swosh.Auth.Session
use swosh.Auth.Session.{Session, Crypto}
use swosh.Auth.Users.{admin_authorities}
use swosh.Web.Http.{Request, Response, new_response, set_header}
use swosh.Web.Server.{Server}
use swosh.Web.Authn.{session_user, admin, csrf_token}
use swosh.Web.Authn.Admitted.{of_session, session_of, login-admits}
use swosh.Web.Login.{login, session_cookie_of}
use swosh.Web.Admin.Handlers.{admin_delete}
use swosh.Tests.{server, crypto, world, request, ann}

abbrev ann_login : Session
ann_login = record {
  username = "ann";
  expires = 43_200_000_000_000;
  nonce = "nonce";
  password = "Gxk";
}

-- A site whose JSON is read back as ann's session.
abbrev site : Server
site = record server { crypto = record crypto { unmarshal = λ bs. some ann_login } }

same_session : ann_login ≡ session_of site ann world
unfolding Session.new_session swosh.Auth.Base64.encode swosh.Common.Bytes.utf8
same_session = refl

abbrev cookie_of : String
cookie_of = Session.encode site.crypto site.key (session_of site ann world)

abbrev token_of : String
token_of = csrf_token site (of_session site ann (session_of site ann world))

abbrev sign_in : Request
sign_in = record request {
  method = "POST";
  basic_auth = none;
  post_form = λ name. if name == "username" then some "ann" else some "secret";
}

abbrev deleting : Request
deleting = record request {
  method = "DELETE";
  basic_auth = none;
  cookie = λ name. some cookie_of;
  header = λ name. if name == "X-CSRF-Token" then token_of else "";
}

login-admits_example :
    ((login site sign_in world).0.cookies
      ≡ session_cookie_of site cookie_of (session_of site ann world).expires ∷ [])
    × (admin site "DELETE" (admin_delete site) deleting world
        ≡ admin_delete site
            (set_header "Cache-Control" "no-store" new_response)
            deleting
            (of_session site ann (session_of site ann world))
            (session_user site deleting world).1)
unfolding swosh.Web.Http.same_origin swosh.Auth.Users.login swosh.World.Store.get_user_by_username
    swosh.Db.get_user_by_username swosh.Auth.Users.check_password Session.new_session
    swosh.Db.find_user csrf_token swosh.Web.Authn.sent_token Session.csrf_token
    swosh.Auth.Base64.encode swosh.Common.Bytes.utf8
login-admits_example =
    login-admits site sign_in world ann "DELETE" (admin_delete site) deleting world refl refl
      (record {
        macs = λ k m. ground arith;
        marshalled = ground arith;
        read_back = ap some same_session;
      })
      (λ h. ground (arith, eq_iff "ann" "")) (λ h. ground (arith, eq_iff "nonce" "")) refl
      (ground arith) refl refl refl refl (inr refl) refl

clean_location : location "/a//b/../c/./?next=/x/../y" ≡ "/a/c/?next=/x/../y"
unfolding location swosh.Common.Text.Location.is_url swosh.Common.Bytes.utf8_char
clean_location = refl

escaped_location : location "/../ä/." ≡ "/%c3%a4"
unfolding location swosh.Common.Text.Location.is_url swosh.Common.Bytes.utf8_char
escaped_location = refl

-- A URL that net/url refuses is not cleaned.
unread_location : location "/a/../%zz" ≡ "/a/../%zz"
unfolding location swosh.Common.Text.Location.is_url swosh.Common.Bytes.utf8_char
unread_location = refl

-- A null behind an amount leaves the amount, and a bad amount in front of a good one is an error.
repeated_amount :
    set_each unmarshal_int zero_int (number "5" ∷ null ∷ [])
    ≡ some (record { present = true; valid = true; value = pos 5 })
unfolding set_each unmarshal_int
repeated_amount = refl

bad_amount : set_each unmarshal_int zero_int (quoted "five" ∷ number "5" ∷ []) ≡ none
unfolding set_each unmarshal_int
bad_amount = refl
