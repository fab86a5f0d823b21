-- ===== src/Tests/Whole.antt =====
-- The theorems on the whole site, from its mux on, at the small site.
use swosh.Common.{String, ◌≡◌, refl, true, false, none, some, [], ◌∷◌, arith}
use swosh.Db.{find_link}
use swosh.World.{World, Outside}
use swosh.Expiry.{sweep}
use swosh.Web.Http.{Request, Response, created, new_response}
use swosh.Web.Http.Secured.{IsSecured, new_response-IsSecured}
use swosh.Web.Server.{Server}
use swosh.Web.Admin.{valid_id, reserved_ids, is_reserved}
use swosh.Web.Admin.Handlers.{admin_delete_many}
use swosh.Web.Admin.Equal.{delete_each, admin_delete_many-each}
use swosh.Web.Authn.{Principal}
use swosh.Web.I18n.Script.{set_for, parse_templates, TemplateSet, IsLook, request-IsLook}
use swosh.Web.Server.{request_lang, request_theme}
use swosh.Web.Links.Laws.{visible}
use swosh.Web.Links.Swept.{unswept, preview-sweep}
use swosh.Web.Pages.{preview, redirect}
use swosh.Web.Pages.Laws.{IsPreview}
use swosh.Web.Routes.{Site, public_route, preview_route, redirect_route, qr_route}
use swosh.Web.Routes.Visits.{IsOpened}
use swosh.Web.Mux.{dispatch, respond}
use swosh.Web.Mux.Match.{found, handle, handles}
use swosh.Web.Mux.Links.{dispatch-pages}
use swosh.Web.Mux.Safe.{respond-IsOpened}
use swosh.Web.Mux.Secured.{respond-IsSecured}
use swosh.Web.Mux.Created.{IsMade, respond-created}
use swosh.Web.Api.Usable.{IsBelow}
use swosh.Tests.{server, outside, world, request, world-IsKeyed}
use swosh.Tests.Pages.{lru, swish, client, site, visit}

-- The static files, with a response that has the security headers.
abbrev pub files : Request → Response
files r = new_response

-- A site whose random numbers are all 0.
abbrev still : Server
still = record server { outside = record outside { rand_int = λ n max. 0 } }

abbrev still_site : Site still lru swish
still_site = (world, client)

abbrev posting : Request
posting = record visit { method = "POST"; path = "/api/create" }

made :
    (respond still lru swish files posting still_site).0.0.body
    ≡ created "able-acorn-bakes" "https://swo.sh/able-acorn-bakes"
unfolding respond swosh.Web.Create.Decode.decode swosh.Web.Create.validate swosh.Web.Create.is_blank
    swosh.Web.Create.check_message swosh.Web.Create.format_payee swosh.Web.Create.expires_on
    swosh.Web.Api.insert_from swosh.Web.Api.try_insert swosh.World.Store.create_swosh
    swosh.Db.create_swosh find_link swosh.Linkid.new_id
made = refl

abbrev opening : Request
opening = record visit { path = "/able-acorn-bakes" }

still_IsBelow : IsBelow still.outside
still_IsBelow n max h = h

respond-created_example :
    (link : IsMade still posting.create_body world "able-acorn-bakes"
      "https://swo.sh/able-acorn-bakes")
    × (◌≡◌ {A = String} "https://swo.sh/able-acorn-bakes" "https://swo.sh/able-acorn-bakes")
    × IsPreview still
        (record opening { path_id = "able-acorn-bakes" })
        (visible still opening
          (respond still lru swish files posting still_site).0.1.0
          (some link.link))
        (respond still lru swish files opening
          (respond still lru swish files posting still_site).0.1).0.0
respond-created_example =
    respond-created still lru swish files posting opening still_site still_IsBelow refl refl made
      refl refl refl

coffee_usable : (valid_id "coffee" ≡ true) × (is_reserved reserved_ids "coffee" ≡ false)
unfolding valid_id is_reserved
coffee_usable = (refl, refl)

dispatch-pages_example :
    (dispatch "GET" "/coffee"
      ≡ found (handle "GET /{id}" (handles (public_route preview_route))) "coffee")
    × (dispatch "GET" "/coffee/redir"
        ≡ found (handle "GET /{id}/redir" (handles (public_route redirect_route))) "coffee")
    × (dispatch "GET" "/coffee/qr"
        ≡ found (handle "GET /{id}/qr" (handles (public_route qr_route))) "coffee")
dispatch-pages_example = dispatch-pages "coffee" coffee_usable.0 coffee_usable.1

respond-IsOpened_example : IsOpened world (respond server lru swish files visit site).0.1.0
respond-IsOpened_example = respond-IsOpened server lru swish files visit site refl

respond-IsSecured_example : IsSecured (respond server lru swish files visit site).0.0
respond-IsSecured_example =
    respond-IsSecured server lru swish files visit site (λ q. new_response-IsSecured)

preview-sweep_example :
    ((preview server visit (sweep server.outside world).1).0
      ≡ (preview server visit (unswept world)).0)
    × ((redirect server visit (sweep server.outside world).1).0
        ≡ (redirect server visit (unswept world)).0)
preview-sweep_example = preview-sweep server visit world world-IsKeyed (omega arith) refl

abbrev ann_principal : Principal
ann_principal = record { name = "ann"; authorities = []; session = none }

admin_delete_many-each_example :
    (admin_delete_many server new_response request ann_principal world).1.links
    ≡ (delete_each server new_response request ann_principal ("stale" ∷ "unknown" ∷ []) world).links
admin_delete_many-each_example =
    admin_delete_many-each server new_response request ann_principal (λ n. refl)
      ("stale" ∷ "unknown" ∷ []) world refl (omega arith) (omega arith)

request-IsLook_example :
    (t : TemplateSet) × (set_for (request_lang server visit) (request_theme visit) parse_templates
      ≡ some t)
    × IsLook (request_lang server visit) (request_theme visit) t
request-IsLook_example = request-IsLook server visit
