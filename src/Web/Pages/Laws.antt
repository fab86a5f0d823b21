-- ===== src/Web/Pages/Laws.antt =====
-- What the public pages of internal/web/web.go answer for a link.
use swosh.Common.{ℕ, code, String, ◌≡◌, refl, subst, ◌⊎◌, inl, inr, false, some, Result, ok, err}
use swosh.Db.{Swosh, find_link}
use swosh.World.{World}
use swosh.Swish.{Payment, uri}
use swosh.Swish.Payload.{reading_of}
use swosh.Swish.Uri.{read_uri, read_uri-uri}
use swosh.Swish.Qr.{Lru, Swish, QrClient, QrError, png}
use swosh.Swish.Qr.Laws.{IsLru, IsAnswer, IsGenuine, IsGiven, png-IsGenuine}
use swosh.Common.Bytes.{Bytes}
use swosh.Web.Http
use swosh.Web.Http.{
  Request, Response, PreviewData, preview_html, new_response, header_of, set_header, http_error,
}
use swosh.Web.Server.{Server, render, request_lang}
use swosh.Web.Links.{lookup}
use swosh.Web.Links.Laws.{visible, lookup-Looked}
use swosh.Web.Pages.{
  payment, preview_data, previewed, preview, redirected, redirect, qr_page, coded, qr,
}
use swosh.Web.Pages.Hint.{Hints, preview_hint-Hints}

module _ (s : Server) where
  -- A link that can be seen is answered with a redirect that opens its payment.
  abbrev pub IsRedirect : Result Response Swosh → Response → Type 0
  IsRedirect (err page) resp = resp ≡ page
  IsRedirect (ok sw) resp =
      (resp.status ≡ 307)
      × ((url : String) × (header_of "Location" resp.headers ≡ some url)
          × (read_uri url ≡ some (reading_of (payment sw))))

  redirected-IsRedirect : (v : Result Response Swosh) → IsRedirect v (redirected s v)
  unfolding set_header header_of
  redirected-IsRedirect (err page) = refl
  redirected-IsRedirect (ok sw) = (refl, (uri (payment sw), refl, read_uri-uri (payment sw)))

  -- If the statement that reads the link does not fail, `redirect` answers a request for a link
  -- that exists and has not expired with 307 and a Location that an app reads as the link's
  -- payment, and any other with the not found page.
  pub redirect-IsRedirect :
      (r : Request) (w : World)
      → s.outside.down w.statements ≡ false
      → IsRedirect (visible s r w (find_link r.path_id w.links)) (redirect s r w).0
  unfolding redirect
  redirect-IsRedirect r w up =
      subst (λ v. IsRedirect v (redirect s r w).0) (lookup-Looked s r w up).1
        (redirected-IsRedirect (lookup s r w).0)

  -- The page of a link that can be seen opens its payment, and its hint names what can be changed.
  abbrev pub IsPreview : Request → Result Response Swosh → Response → Type 0
  IsPreview r (err page) resp = resp ≡ page
  IsPreview r (ok sw) resp =
      (d : PreviewData) × (resp ≡ render s r (preview_html d) new_response)
      × (read_uri d.swish_uri ≡ some (reading_of (payment sw)))
      × Hints sw (request_lang s r) d.hint

  previewed-IsPreview : (r : Request) (v : Result Response Swosh) → IsPreview r v (previewed s r v)
  unfolding preview_data
  previewed-IsPreview r (err page) = refl
  previewed-IsPreview r (ok sw) = (
    preview_data s sw (request_lang s r),
    refl,
    read_uri-uri (payment sw),
    preview_hint-Hints sw (request_lang s r),
  )

  -- If the statement that reads the link does not fail, `preview` renders for a link that exists
  -- and has not expired a page whose payment link an app reads as the link's payment and whose
  -- hint there is, in the visitor's language, with the words for the number, the amount and the
  -- message exactly where these may be changed; and any other request gets the not found page.
  pub preview-IsPreview :
      (r : Request) (w : World)
      → s.outside.down w.statements ≡ false
      → IsPreview r (visible s r w (find_link r.path_id w.links)) (preview s r w).0
  unfolding preview
  preview-IsPreview r w up =
      subst (λ v. IsPreview r v (preview s r w).0) (lookup-Looked s r w up).1
        (previewed-IsPreview r (lookup s r w).0)

  module _ (l : Lru) (swish : Swish) where
    -- The response is a code that Swish made for the payment, or says that there is none.
    abbrev pub IsCode : ℕ → Payment → Response → Type 0
    IsCode n p resp =
        ((code : Bytes) × (resp.status ≡ 200)
          × (resp.body ≡ swosh.Web.Http.png code)
          × IsAnswer l swish n p code)
        ⊎ (resp.status ≡ 502)

    abbrev pub IsCoded :
        Result Response Swosh → QrClient l swish → Response × QrClient l swish → Type 0
    IsCoded (err page) c (resp, c') = (resp ≡ page) × (c' ≡ c)
    IsCoded (ok sw) c (resp, c') = IsGenuine l swish c' × IsCode c'.asked (payment sw) resp

    module _ (h : IsLru l) where
      qr_page-IsCode :
          (n : ℕ) (p : Payment) (a : Result QrError Bytes)
          → IsGiven l swish n p a
          → IsCode n p (qr_page s l swish a)
      unfolding set_header http_error
      qr_page-IsCode n p (err e) given = inr refl
      qr_page-IsCode n p (ok code) given = inl (code, refl, refl, given)

      coded-IsCoded :
          (c : QrClient l swish) (v : Result Response Swosh)
          → IsGenuine l swish c
          → IsCoded v c (coded s l swish c v)
      coded-IsCoded c (err page) g = (refl, refl)
      coded-IsCoded c (ok sw) g =
          let (fine, given) = png-IsGenuine l swish h (payment sw) c g in
          (
            fine,
            qr_page-IsCode (png l swish (payment sw) c).1.asked (payment sw)
                (png l swish (payment sw) c).0 given,
          )

      -- If the statement that reads the link does not fail, the cache behaves as one and every
      -- cached code is Swish's answer to a request for its payment, `qr` answers a request for a
      -- link that exists and has not expired with at most 2^20 bytes of such an answer for the
      -- link's payment, or with 502, and keeps the cache so; any other request gets the not found
      -- page and leaves the cache alone.
      pub qr-IsCoded :
          (c : QrClient l swish) (r : Request) (w : World)
          → s.outside.down w.statements ≡ false
          → IsGenuine l swish c
          → IsCoded (visible s r w (find_link r.path_id w.links)) c (qr s l swish c r w).0
      unfolding qr
      qr-IsCoded c r w up g =
          subst (λ v. IsCoded v c (qr s l swish c r w).0) (lookup-Looked s r w up).1
            (coded-IsCoded c (lookup s r w).0 g)
