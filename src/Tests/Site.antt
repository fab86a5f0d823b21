-- ===== src/Tests/Site.antt =====
-- The theorems on internal/web and internal/expiry at the small site.
use swosh.Common.Text.{or_empty}
use swosh.Common.{
  ℕ, zero, suc, ◌+◌, ◌-◌, ◌*◌, ◌/◌, ◌%◌, ◌^◌, ◌≤◌, ◌<◌, Char, code, String, len, ◌≡◌, refl, sym, ap,
  ◌∙◌, subst, ◌≢◌, ◌↔◌, ◌⊎◌, inl, inr, Bool, true, false, not, ◌&&◌, ◌||◌, Option, none, some, List,
  [], ◌∷◌, ◌++◌, map, arith, ◌==◌, eq_iff, eq_refl, ltb, leb, eqb, if◌then◌else◌, ltb→lt, lt→ltb,
  leb→le, eqb_iff, Bool-cases, Option-cases, Result, ok, err, Result-cases, length, get_or, all,
  length-append, All, contains,
}
use swosh.Common.Int.{ℤ, pos, negsuc}
use swosh.Db.{Time, Swosh, DbError, find_link, UpdateSwoshParams}
use swosh.Db.{edit_links, update_swosh}
use swosh.World.{World}
use swosh.World.{Outside}
use swosh.Web.Admin.{valid_id, is_reserved, reserved_ids}
use swosh.Expiry.{sweep}
use swosh.Expiry.Laws.{IsSwept, sweep-IsSwept}
use swosh.Web.Create.{validate}
use swosh.Web.Create.Accepted.{IsAccepted, validate_iff}
use swosh.Web.Http.{Request, new_response, set_header}
use swosh.Web.Authn.{Principal, admin, authenticate, current_user}
use swosh.Web.Authn.Genuine.{IsUser, authenticate_sound}
use swosh.Web.Authn.Guard.{Guarded, admin-Guarded}
use swosh.Web.Links.{lookup, is_admin}
use swosh.Auth.Session
use swosh.Web.Links.Laws.{Looked, visible, lookup-Looked}
use swosh.Web.Api.{create, insert, parsed}
use swosh.Web.Api.Retry.{insert_succeeds}
use swosh.Web.Api.Outcome.{Outcome, create-Outcome}
use swosh.Web.Admin.{params, admin_link_of, changes}
use swosh.Web.Admin.Form.{IsEdit, IsLinkId, IsShown, ReadsBack, params-IsEdit}
use swosh.Web.Admin.Sent.{IsKeepable, IsSentBack, admin_update-sent_form}
use swosh.Web.Admin.Handlers.{admin_delete, admin_update, sent_form}
use swosh.Tests.{
  world-IsKeyed, server, outside, phones, crypto, ann_session, world, request, lunch, new_lunch,
  coffee, ann,
}

validate_iff_example :
    (validate phones lunch 0 ≡ ok new_lunch) ↔ IsAccepted phones lunch 0 new_lunch
validate_iff_example = validate_iff phones lunch 0 new_lunch

lunch_accepted : validate phones lunch 0 ≡ ok new_lunch
unfolding validate swosh.Web.Create.is_blank swosh.Web.Create.check_message
    swosh.Web.Create.format_payee swosh.Web.Create.expires_on swosh.Common.Int.to_int32
lunch_accepted = refl

create-Outcome_example :
    Outcome server (parsed server request.create_body) world (create server request world)
create-Outcome_example = create-Outcome server request world

admin-Guarded_example :
    Guarded server "DELETE"
      (admin_delete server)
      request
      world
      (set_header "Cache-Control" "no-store" new_response)
      (admin server "DELETE" (admin_delete server) request world)
admin-Guarded_example = admin-Guarded server "DELETE" (admin_delete server) request world

lookup-Looked_example :
    Looked server request world (lookup server request world)
    × ((lookup server request world).0
        ≡ visible server request world (find_link "coffee" world.links))
lookup-Looked_example = lookup-Looked server request world refl

insert_succeeds_example : (sw : Swosh) × ((insert server new_lunch world).0 ≡ ok sw)
unfolding find_link
insert_succeeds_example = insert_succeeds server new_lunch 1 world (ground arith) (λ j h. refl) refl

abbrev ann_principal : Principal
ann_principal = record { name = "ann"; authorities = ann.authorities; session = none }

ann_authenticated : (authenticate server request world).0 ≡ ok (some ann_principal)
unfolding authenticate swosh.World.Store.get_user_by_username swosh.Db.get_user_by_username
    swosh.Auth.Users.check_password
ann_authenticated = refl

authenticate_sound_example : IsUser server request world ann_principal
authenticate_sound_example = authenticate_sound server request world ann_principal ann_authenticated

sweep-IsSwept_example : IsSwept 1_000_000 world (sweep outside world).1
sweep-IsSwept_example = sweep-IsSwept outside world world-IsKeyed refl

-- A visit with a session cookie of ann.
abbrev session_request : Request
session_request = record request {
  method = "GET";
  cookie = λ name. some (Session.encode crypto (7 ∷ 9 ∷ []) ann_session);
}

session_admin : is_admin server (current_user server session_request world).0 ≡ true
unfolding current_user Session.decode Session.cut Session.encode swosh.Auth.Base64.encode
    swosh.Auth.Base64.decode Session.bytes_equal swosh.Common.Bytes.utf8
    swosh.World.Store.get_user_by_username swosh.Db.get_user_by_username Session.password_tag
session_admin = refl

abbrev coffee_edit : UpdateSwoshParams
coffee_edit = record {
  new_id = "coffee";
  payee = "0701234567";
  amount = pos 30;
  description = some "Coffee";
  expires_on = some 5_000_000_000;
  id = "coffee";
}

coffee_edit_made :
    params server (admin_link_of server coffee ann_principal) coffee 6_000_000_000 ≡ ok coffee_edit
unfolding params admin_link_of swosh.Common.Decimal.parse_int swosh.Common.Decimal.itoa
    swosh.Common.Decimal.digit swosh.Common.Int.to_int32 swosh.Common.Text.trim_space
coffee_edit_made = refl

params-IsEdit_example :
    IsEdit server
      (admin_link_of server coffee ann_principal)
      (some 5_000_000_000)
      6_000_000_000
      coffee_edit
params-IsEdit_example =
    params-IsEdit server (admin_link_of server coffee ann_principal) coffee 6_000_000_000
      coffee_edit coffee_edit_made

coffee_usable : IsLinkId "coffee"
unfolding swosh.Web.Admin.is_reserved
coffee_usable = (refl, ground arith, ground arith, refl)

coffee_payee : coffee.payee ≢ ""
coffee_payee h = ground (arith, eq_iff "0701234567" "")

coffee-IsShown : IsShown server (some "Coffee")
unfolding swosh.Common.Text.trim_space
coffee-IsShown h = ground (arith, eq_iff "Coffee" "")

coffee_read_back : ReadsBack server (some 5_000_000_000)
coffee_read_back = (λ h. ground (arith, eq_iff "0001-01-01T00:00:05Z" ""), refl)

-- The form of the link, sent back as it was shown.
abbrev sent_request : Request
sent_request = record request {
  method = "POST";
  post_form = λ field.
      if field == "originalId" || field == "id"
      then some "coffee"
      else if field == "payee"
      then some "0701234567"
      else if field == "amount"
      then some "30"
      else if field == "description"
      then some "Coffee"
      else if field == "expiresOn"
      then some "0001-01-01T00:00:05Z"
      else none;
}

coffee-IsKeepable : IsKeepable server coffee
unfolding swosh.Common.Text.trim_space
coffee-IsKeepable = record {
  id = coffee_usable;
  payee = coffee_payee;
  payee_trimmed = refl;
  amount = (30, refl, ground arith);
  description = coffee-IsShown;
  expiry = coffee_read_back;
  expiry_trimmed = refl;
}

sent_request-IsSentBack : IsSentBack sent_request (admin_link_of server coffee ann_principal)
unfolding admin_link_of swosh.Common.Decimal.itoa swosh.Common.Decimal.digit
sent_request-IsSentBack = record {
  original_id = refl;
  id = refl;
  payee = refl;
  amount = refl;
  description = refl;
  expires_on = refl;
}

coffee_found : find_link "coffee" world.links ≡ some coffee
unfolding find_link
coffee_found = refl

admin_update-sent_form_example :
    (arg : UpdateSwoshParams) × (params server
        (sent_form server sent_request coffee ann_principal)
        coffee
        (outside.clock 0)
      ≡ ok arg)
    × (changes coffee arg ≡ [])
    × ((admin_update server new_response sent_request ann_principal world).0.status ≡ 303)
    × ((admin_update server new_response sent_request ann_principal world).1.links ≡ world.links)
admin_update-sent_form_example =
    admin_update-sent_form server new_response sent_request ann_principal coffee world world-IsKeyed
      coffee_found coffee-IsKeepable sent_request-IsSentBack refl refl

-- The form of a login by ann.
abbrev login_request : Request
login_request = record request {
  method = "POST";
  post_form = λ field.
      if field == "username"
      then some "ann"
      else if field == "password"
      then some "secret"
      else none;
}

-- Random numbers that are always 0.
abbrev still : Outside
still = record outside { rand_int = λ n max. 0 }
