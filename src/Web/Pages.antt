-- ===== src/Web/Pages.antt =====
-- internal/web/web.go: the public pages of a link, and the front page.
pub mod Hint
pub mod Laws
use swosh.Common.{
  is_some, ℕ, zero, suc, ◌+◌, ◌-◌, ◌*◌, ◌/◌, ◌%◌, ◌^◌, ◌≤◌, ◌<◌, Char, code, String, len, ◌≡◌, refl,
  sym, ap, ◌∙◌, subst, ◌≢◌, ◌↔◌, ◌⊎◌, inl, inr, Bool, true, false, not, ◌&&◌, ◌||◌, Option, none,
  some, List, [], ◌∷◌, ◌++◌, map, arith, ◌==◌, eq_iff, eq_refl, ltb, leb, eqb, if◌then◌else◌,
  ltb→lt, lt→ltb, leb→le, eqb_iff, Bool-cases, Option-cases, Result, ok, err, Result-cases, length,
  get_or, all, length-append, All, contains,
}
use swosh.Common.Text.{or_empty}
use swosh.Db.{Time, Swosh}
use swosh.World.{Action, pure, ◌>>=◌, ◌>>◌}
use swosh.Swish.{Payment, uri}
use swosh.Swish.Qr.{Lru, Swish, QrClient, QrError, png}
use swosh.Common.Bytes.{Bytes}
use swosh.Web.I18n.{Lang, Arg, str, tr}
use swosh.Web.Create.{max_amount, long_expiry}
use swosh.Web.Http
use swosh.Web.Http.{
  Request, Response, Page, IndexPage, PreviewData, index_html, preview_html, new_response,
  set_header, http_error,
}
use swosh.Web.Server.{Server, base_url, render, request_lang}
use swosh.Web.Authn.{Principal, current_user}
use swosh.Web.Links.{lookup}
use Prim.Native.String.{◌++◌ as ◌<>◌}

unfoldable pub payment : Swosh → Payment
payment sw = record {
  payee = sw.payee;
  amount = sw.amount;
  message = or_empty sw.description;
  payee_editable = sw.payee_editable;
  amount_editable = sw.amount_editable;
  message_editable = sw.message_editable;
}

abbrev with_field : Option String → Option (List String) → Option (List String)
with_field (some text) (some fields) = some (text ∷ fields)
with_field f fs = none

-- The loop of `editable`; `none` is a panic of `mustTr`.
unfoldable pub editable_fields : Lang → List (Bool × String) → Option (List String)
unfolding tr
editable_fields l [] = some []
editable_fields l ((on, key) ∷ fs) =
    let rest = editable_fields l fs in if on then with_field (tr l key []) rest else rest

-- `strings.Join(fields[:len(fields)-1], ", ") + " " + and + " " + fields[len(fields)-1]`
abbrev listed : String → String → List String → String
listed and_text f [] = f
listed and_text f (g ∷ []) = ◌<>◌ f (◌<>◌ " " (◌<>◌ and_text (◌<>◌ " " g)))
listed and_text f (g ∷ h ∷ fs) = ◌<>◌ f (◌<>◌ ", " (listed and_text g (h ∷ fs)))

abbrev enumerated : Lang → Option (List String) → Option String
enumerated l none = none
enumerated l (some []) = some ""
enumerated l (some (f ∷ [])) = some f
enumerated l (some (f ∷ g ∷ fs)) = elim (tr l "editable.and" []) [
  | none ↦ none
  | some and_text ↦ some (listed and_text f (g ∷ fs))
]

unfoldable pub editable : Swosh → Lang → Option String
unfolding tr editable_fields
editable sw l = enumerated l (
    editable_fields l (
      (sw.payee_editable, "editable.number")
      ∷ (sw.amount_editable, "editable.amount")
      ∷ (sw.message_editable, "editable.message")
      ∷ []))

abbrev hint_for : Lang → Option String → Option String
hint_for l none = none
hint_for l (some e) =
    if not (e == "") then tr l "preview.hint.editable" (str e ∷ []) else tr l "preview.hint" []

-- The text of `Hint` in `preview`
unfoldable pub preview_hint : Swosh → Lang → Option String
unfolding tr editable
preview_hint sw l = hint_for l (editable sw l)

module _ (s : Server) where
  unfoldable pub index : Request → Action Response
  unfolding current_user
  index r = do
    u ← current_user s r
    pure (
        render s r
          (index_html (record {
            base_url = base_url s;
            max_amount = max_amount;
            long_expiry = long_expiry / 1_000_000_000;
            logged_in = is_some u;
          }))
          new_response)

  abbrev shown_time : Option Time → String
  shown_time none = ""
  shown_time (some t) = s.rfc3339 t

  unfoldable pub preview_data : Swosh → Lang → PreviewData
  unfolding payment uri preview_hint
  preview_data sw l = record {
    base_url = base_url s;
    id = sw.id;
    payee = sw.payee;
    amount = sw.amount;
    description = or_empty sw.description;
    expires_on = shown_time sw.expires_on;
    swish_uri = uri (payment sw);
    hint = preview_hint sw l;
  }

  abbrev pub previewed : Request → Result Response Swosh → Response
  previewed r (err answered) = answered
  previewed r (ok sw) = render s r (preview_html (preview_data sw (request_lang s r))) new_response

  unfoldable pub preview : Request → Action Response
  unfolding lookup preview_data request_lang
  preview r = do found ← lookup s r; pure (previewed r found)

  abbrev pub redirected : Result Response Swosh → Response
  redirected (err answered) = answered
  redirected (ok sw) = record (set_header "Location" (uri (payment sw)) new_response) {
    status = 307;
  }

  unfoldable pub redirect : Request → Action Response
  unfolding lookup payment uri set_header
  redirect r = do found ← lookup s r; pure (redirected found)

  module _ (l : Lru) (swish : Swish) where
    abbrev pub qr_page : Result QrError Bytes → Response
    qr_page (err e) = http_error "Could not get a QR code from Swish" 502 new_response
    qr_page (ok png) = record (set_header "Content-Type" "image/png" new_response) {
      body = swosh.Web.Http.png png;
    }

    abbrev pub coded : QrClient l swish → Result Response Swosh → Response × QrClient l swish
    coded c (err answered) = (answered, c)
    coded c (ok sw) = let (code, c') = png l swish (payment sw) c in (qr_page code, c')

    unfoldable pub qr : QrClient l swish → Request → Action (Response × QrClient l swish)
    unfolding lookup payment set_header http_error png
    qr c r = do found ← lookup s r; pure (coded c found)
