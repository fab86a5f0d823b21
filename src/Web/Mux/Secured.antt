-- ===== src/Web/Mux/Secured.antt =====
-- The security headers of internal/web/web.go on every response of the site.
use swosh.Common.{refl}
use swosh.Swish.Qr.{Lru, Swish}
use swosh.Web.Http.{Request, Response, new_response}
use swosh.Web.Http.Secured.{
  IsSecured, new_response-IsSecured, set_header-IsSecured, http_error-IsSecured,
}
use swosh.Web.Server.{Server}
use swosh.Web.Routes.{Site}
use swosh.Web.Routes.Secured.Admin.{serve-IsSecured}
use swosh.Web.Mux.{dispatch, answer, respond}
use swosh.Web.Mux.Match.{Handler, handles, serves_file, Target, found, wrong_method, unknown}

module _ (s : Server) (l : Lru) (swish : Swish) (files : Request → Response) where
  answer-IsSecured :
      (t : Target) (r : Request) (site : Site s l swish)
      → ((q : Request) → IsSecured (files q))
      → IsSecured (answer s l swish files t r site).0
  unfolding answer
  answer-IsSecured (wrong_method ms) r site h =
      http_error-IsSecured _ 405 _
        (set_header-IsSecured "Allow" _ new_response refl new_response-IsSecured)
  answer-IsSecured unknown r site h = http_error-IsSecured _ 404 new_response new_response-IsSecured
  answer-IsSecured (found p id) r site h = handled p.handler
    where
      handled :
          (g : Handler)
          → IsSecured (answer s l swish files (found (record p { handler = g }) id) r site).0
      handled (handles route) = serve-IsSecured s l swish route (record r { path_id = id }) site
      handled serves_file = h (record r { path_id = id })

  -- The response to every request, whatever its method and path and in every state, has the four
  -- headers of `securityHeaders` with their values, if those of the static files keep them.
  pub respond-IsSecured :
      (r : Request) (site : Site s l swish)
      → ((q : Request) → IsSecured (files q))
      → IsSecured (respond s l swish files r site).0.0
  unfolding respond
  respond-IsSecured r site h = answer-IsSecured (dispatch r.method r.path) r site h
