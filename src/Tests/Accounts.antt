-- ===== src/Tests/Accounts.antt =====
-- The theorems on internal/auth and on texts and numbers at small examples.
use swosh.Common.{String, ◌≡◌, refl, ◌↔◌, true, none, some, [], ◌∷◌, arith, eq_iff}
use swosh.Common.Int.{pos}
use swosh.Common.Bytes.{Bytes}
use swosh.Common.Decimal.{parse_int, itoa, parse_int-itoa_pos}
use swosh.Db.{find_user}
use swosh.Auth.Base64
use swosh.Auth.Session
use swosh.Auth.Session.{mac, csrf_token, check_csrf_token}
use swosh.Auth.Session.Laws.{IsSigned, decode_iff}
use swosh.Auth.Users.{hash_password}
use swosh.Web.Http.{Request}
use swosh.Tests.{request, crypto, bcrypt, ann_session, ann, world}

abbrev key : Bytes
key = 7 ∷ 9 ∷ []

abbrev value : String
value = Session.encode crypto key ann_session

decode_iff_example :
    (Session.decode crypto key value 1_500_000 ≡ some ann_session)
    ↔ IsSigned crypto key value 1_500_000 ann_session
decode_iff_example = decode_iff crypto key value 1_500_000 ann_session

bob_hashed : hash_password bcrypt 0 "pw" ≡ some "{bcrypt}h:pw"
unfolding hash_password
bob_hashed = refl

bob_unknown : find_user "bob" world.users ≡ none
unfolding find_user
bob_unknown = refl

parse_int-itoa_pos_example : parse_int 31 (itoa (pos 150_000)) ≡ some (pos 150_000)
parse_int-itoa_pos_example = parse_int-itoa_pos 31 150_000 (ground arith)

-- A visit with the cookie of ann's session.
abbrev visit : Request
visit = record request { cookie = λ name. some value }

ann_known : find_user "ann" world.users ≡ some ann
unfolding find_user
ann_known = refl

ann_tagged : Session.password_tag crypto key ann.password ≡ ann_session.password
unfolding Session.password_tag swosh.Auth.Base64.encode swosh.Common.Bytes.utf8
ann_tagged = refl
