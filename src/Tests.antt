-- ===== src/Tests.antt =====
-- A small site on which the theorems are tried out.
mod Site
mod Accounts
mod Pages
mod Commands
mod Whole
mod Serving
mod Login
mod Shell
use swosh.Common.{
  ℕ, zero, suc, ◌+◌, ◌-◌, ◌*◌, ◌/◌, ◌%◌, ◌^◌, ◌≤◌, ◌<◌, Char, code, String, len, ◌≡◌, refl, sym, ap,
  ◌∙◌, subst, ◌≢◌, ◌↔◌, ◌⊎◌, inl, inr, Bool, true, false, not, ◌&&◌, ◌||◌, Option, none, some, List,
  [], ◌∷◌, ◌++◌, map, arith, ◌==◌, eq_iff, eq_refl, ltb, leb, eqb, if◌then◌else◌, ltb→lt, lt→ltb,
  leb→le, eqb_iff, Bool-cases, Option-cases, Result, ok, err, Result-cases, length, get_or, all,
  length-append, All, contains,
}
use swosh.Common.Int.{ℤ, pos, negsuc}
use swosh.Common.Bytes.{Bytes, utf8}
use swosh.Db.{Time, Swosh, User, find_link}
use swosh.Db.Keys.{IsKeyed}
use swosh.World.{Outside, World}
use swosh.Auth.Session.{Session, Crypto}
use swosh.Auth.Users.{Bcrypt, admin_authorities}
use swosh.Web.Create.{Phonenumbers, NullableInt, CreateRequest, NewSwosh}
use swosh.Web.Create.Decode.{CreateBody, number, quoted}
use swosh.Web.Http.{Request}
use swosh.Web.Server.{Server}
use Prim.Native.String.{◌++◌ as ◌<>◌}

abbrev pub outside : Outside
outside = record {
  clock = λ n. 1_000_000 + n;
  db_clock = λ n. 1_000_000 + n;
  down = λ n. false;
  id_le = λ a b. true;
  rand_int = λ n max. n;
  rand_nonce = λ n. "nonce";
}

abbrev pub sum_of : Bytes → ℕ
sum_of [] = 0
sum_of (b ∷ bs) = b + 3 * sum_of bs

abbrev pub ann_session : Session
ann_session = record { username = "ann"; expires = 2_000_000; nonce = "n1"; password = "Gxk" }

abbrev pub crypto : Crypto
crypto = record {
  hmac = λ k m. (sum_of k + sum_of m) % 256 ∷ length m % 256 ∷ [];
  marshal = λ sess. 123 ∷ 125 ∷ [];
  unmarshal = λ bs. some ann_session;
}

abbrev pub bcrypt : Bcrypt
bcrypt = record {
  generate = λ salt password. some (◌<>◌ "h:" password);
  matches = λ hash password. hash == ◌<>◌ "h:" password;
}

abbrev pub phones : Phonenumbers
phones = record {
  parses = λ text. true;
  country_code = λ text. 46;
  is_mobile = λ text. true;
  national = λ text. text;
}

abbrev pub server : Server
server = record {
  scheme = "https";
  hostname = "swo.sh";
  key = 7 ∷ 9 ∷ [];
  outside = outside;
  crypto = crypto;
  bcrypt = bcrypt;
  phones = phones;
  match_language = λ header. 0;
  executes = λ lang theme page. true;
  rfc3339 = λ t. if eqb t 5_000_000_000 then "0001-01-01T00:00:05Z" else "0001-01-01T00:00:00Z";
  parse_rfc3339 = λ text. if text == "0001-01-01T00:00:05Z" then some 5_000_000_000 else some 0;
  quote = λ text. ◌<>◌ "\"" (◌<>◌ text "\"");
}

abbrev pub coffee : Swosh
coffee = record {
  id = "coffee";
  payee = "0701234567";
  amount = pos 30;
  description = some "Coffee";
  expires_on = some 5_000_000_000;
  created_at = 10;
  payee_editable = false;
  amount_editable = false;
  message_editable = true;
  last_accessed_at = none;
}

abbrev pub stale : Swosh
stale = record coffee { id = "stale"; expires_on = some 500 }

abbrev pub ann : User
ann = record {
  username = "ann";
  password = "{bcrypt}h:secret";
  enabled = true;
  authorities = admin_authorities;
  created_at = 1;
}

abbrev pub world : World
world = record {
  links = coffee ∷ stale ∷ [];
  users = ann ∷ [];
  create_success = 0;
  create_failed = 0;
  expired_links = 0;
  readings = 0;
  statements = 0;
  draws = 0;
}

-- A request by ann with HTTP Basic credentials.
abbrev pub request : Request
request = record {
  method = "DELETE";
  host = "swo.sh";
  path = "/admin/coffee";
  path_id = "coffee";
  request_uri = "/admin/coffee";
  cookie = λ name. none;
  header = λ name. "";
  query = λ name. none;
  post_form = λ name. none;
  basic_auth = some ("ann", "secret");
  origin_host = none;
  referer = none;
  create_body = some (record {
    phone = quoted "1231234567" ∷ [];
    amount = number "100" ∷ [];
    message = quoted "Lunch" ∷ [];
    expire_after_seconds = [];
    payee_editable = [];
    amount_editable = [];
    message_editable = [];
  });
  ids_body = some ("stale" ∷ "unknown" ∷ []);
}

abbrev pub lunch : CreateRequest
lunch = record {
  phone = some "1231234567";
  amount = record { present = true; valid = true; value = pos 100 };
  message = some "Lunch";
  expire_after_seconds = record { present = false; valid = false; value = pos 0 };
  payee_editable = none;
  amount_editable = none;
  message_editable = none;
}

abbrev pub new_lunch : NewSwosh
new_lunch = record {
  payee = "1231234567";
  amount = pos 100;
  description = some "Lunch";
  expires_on = some 172_800_000_000_000;
  payee_editable = false;
  amount_editable = false;
  message_editable = true;
}

pub world-IsKeyed : IsKeyed world.links
unfolding find_link
world-IsKeyed = (refl, (refl, tt))
