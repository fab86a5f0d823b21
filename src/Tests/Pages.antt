-- ===== src/Tests/Pages.antt =====
-- The theorems on the public pages and the whole site at the small site.
use swosh.Common.{
  ◌≡◌, refl, sym, ◌↔◌, inl, inr, Bool, true, false, not, ◌&&◌, Option, none, some, List, [], ◌∷◌,
  arith, ◌==◌, eq_iff, eqb, if◌then◌else◌, Bool-cases, ok,
}
use swosh.Common.Int.{ℤ, pos, negsuc}
use swosh.Common.Bytes.{Bytes}
use swosh.Db.{find_link}
use swosh.Db.Refine.{Command, get, touch, delete, delete_expired, replies, spec_replies, meaning}
use swosh.Db.Refine.Laws.{replies-refine}
use swosh.Expiry.{sweep}
use swosh.Swish.{Payment, uri}
use swosh.Swish.Payload.{reading_of}
use swosh.Swish.Uri.{read_uri, read_uri-uri}
use swosh.Swish.Qr.{Lru, answered, Swish, QrClient, new_qr_client, png}
use swosh.Swish.Qr.Laws.{IsLru, new_qr_client-IsGenuine}
use swosh.Web.Http.{Request}
use swosh.Web.Links.Laws.{visible}
use swosh.Web.Pages.{payment, redirect, preview, qr}
use swosh.Web.Pages.Laws.{
  IsRedirect, redirect-IsRedirect, IsPreview, preview-IsPreview, IsCoded, qr-IsCoded,
}
use swosh.Web.Routes.{Site, public_route, create_route, serve_public, serve}
use swosh.Web.Routes.Reach.{served, swept, Reach, start, next, IsSound, reach-IsSound}
use swosh.Web.Routes.Kept
use swosh.Web.Routes.Kept.{Visited, IsKept, visited-IsKept}
use swosh.Web.Api.{create as create_handler}
use swosh.Tests.{server, world, request, coffee, world-IsKeyed}

abbrev same_ℤ : ℤ → ℤ → Bool
same_ℤ (pos a) (pos b) = eqb a b
same_ℤ (negsuc a) (negsuc b) = eqb a b
same_ℤ a b = false

abbrev same_bool : Bool → Bool → Bool
same_bool true b = b
same_bool false b = not b

abbrev same_payment : Payment → Payment → Bool
same_payment p q =
    p.payee == q.payee
    && same_ℤ p.amount q.amount
    && p.message == q.message
    && same_bool p.payee_editable q.payee_editable
    && same_bool p.amount_editable q.amount_editable
    && same_bool p.message_editable q.message_editable

same_ℤ_iff : (a b : ℤ) → (same_ℤ a b ≡ true) ↔ (a ≡ b)
same_ℤ_iff (pos a) (pos b) = ground arith
same_ℤ_iff (negsuc a) (negsuc b) = ground arith
same_ℤ_iff (pos a) (negsuc b) = ground arith
same_ℤ_iff (negsuc a) (pos b) = ground arith

same_payment_iff : (p q : Payment) → (same_payment p q ≡ true) ↔ (p ≡ q)
same_payment_iff p q =
    ground (arith, eq_iff p.payee q.payee, same_ℤ_iff p.amount q.amount, eq_iff p.message q.message)

-- A cache of the payment that was added last.
abbrev found_in : Payment → Option (Payment × Bytes) → Option Bytes
found_in q none = none
found_in q (some (p, b)) = if same_payment p q then some b else none

abbrev pub lru : Lru
lru = record {
  Cache = Option (Payment × Bytes);
  new = λ n. none;
  get = λ q c. (found_in q c, c);
  add = λ p b c. some (p, b);
}

lru-IsLru : IsLru lru
lru-IsLru = record {
  get-add = λ p q b c. elim (Bool-cases (same_payment p q)) [
    | inl same ↦ inr (inl (sym ((same_payment_iff p q).0 same), rw same refl))
    | inr other ↦ inl (rw other refl)
  ];
  add_found = λ p b c. rw ((same_payment_iff p p).1 refl) refl;
  get-get = λ p q c. refl;
  get-new = λ q n. refl;
}

abbrev pub swish : Swish
swish n body = answered 200 (some (137 ∷ 80 ∷ 78 ∷ 71 ∷ []))

abbrev pub client : QrClient lru swish
client = new_qr_client lru swish

abbrev pub site : Site server lru swish
site = (world, client)

abbrev pub visit : Request
visit = record request { method = "GET"; basic_auth = none; request_uri = "/coffee" }

png_given : (png lru swish (payment coffee) client).0 ≡ ok (137 ∷ 80 ∷ 78 ∷ 71 ∷ [])
unfolding png
png_given = refl

read_uri-uri_example : read_uri (uri (payment coffee)) ≡ some (reading_of (payment coffee))
read_uri-uri_example = read_uri-uri (payment coffee)

redirect-IsRedirect_example :
    IsRedirect server
      (visible server visit world (find_link "coffee" world.links))
      (redirect server visit world).0
redirect-IsRedirect_example = redirect-IsRedirect server visit world refl

preview-IsPreview_example :
    IsPreview server visit
      (visible server visit world (find_link "coffee" world.links))
      (preview server visit world).0
preview-IsPreview_example = preview-IsPreview server visit world refl

qr-IsCoded_example :
    IsCoded server lru swish
      (visible server visit world (find_link "coffee" world.links))
      client
      (qr server lru swish client visit world).0
qr-IsCoded_example =
    qr-IsCoded server lru swish lru-IsLru client visit world refl
      (new_qr_client-IsGenuine lru swish lru-IsLru)

site-IsSound : IsSound server lru swish site
site-IsSound = record {
  keyed = world-IsKeyed;
  genuine = new_qr_client-IsGenuine lru swish lru-IsLru;
}

abbrev created_site : Site server lru swish
created_site = (serve server lru swish (public_route create_route) visit site).1

abbrev swept_site : Site server lru swish
swept_site = ((sweep server.outside created_site.0).1, created_site.1)

site_run : Reach server lru swish site swept_site
site_run =
    next (next start (served (public_route create_route) visit site))
      (swept created_site.0 created_site.1)

reach-IsSound_example : IsSound server lru swish swept_site
reach-IsSound_example = reach-IsSound server lru swish lru-IsLru site_run site-IsSound

coffee_found : find_link coffee.id site.0.links ≡ some coffee
unfolding find_link
coffee_found = refl

visited_run :
    Visited server lru swish site (serve_public server lru swish create_route visit site).1
visited_run = Kept.served create_route visit Kept.start

visited-IsKept_example :
    IsKept server lru swish coffee (serve_public server lru swish create_route visit site).1.0
visited-IsKept_example =
    visited-IsKept server lru swish coffee visited_run world-IsKeyed coffee_found

abbrev statements : List Command
statements =
    get "coffee"
    ∷ touch 7 "coffee"
    ∷ delete "stale"
    ∷ delete "stale"
    ∷ delete_expired 6_000_000_000
    ∷ get "coffee"
    ∷ []

replies-refine_example :
    replies statements world.links ≡ spec_replies statements (meaning world.links)
replies-refine_example = replies-refine statements world.links world-IsKeyed
