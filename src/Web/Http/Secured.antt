-- ===== src/Web/Http/Secured.antt =====
-- The headers that `securityHeaders` of internal/web/web.go sets stay through net/http.
use swosh.Common.{
  ℕ, code, String, ◌≡◌, refl, ◌∙◌, false, not, ◌&&◌, ◌||◌, inl, inr, Bool-cases, is_some, none,
  some, List, [], ◌∷◌, ◌++◌, arith, ◌==◌, eq_iff, eq_refl, if◌then◌else◌,
}
use swosh.Common.Text.Location.{location}
use swosh.Web.Http.{
  Request, Response, Cookie, new_response, header_of, content_security_policy, without, set_header,
  add_header, set_cookie, http_error, redirect_to,
}

-- The response has the four headers.
pub record IsSecured (w : Response) : Type 0 where
  pub policy : header_of "Content-Security-Policy" w.headers ≡ some content_security_policy
  pub sniffing : header_of "X-Content-Type-Options" w.headers ≡ some "nosniff"
  pub framing : header_of "X-Frame-Options" w.headers ≡ some "DENY"
  pub referrer : header_of "Referrer-Policy" w.headers ≡ some "strict-origin-when-cross-origin"

pub new_response-IsSecured : IsSecured new_response
unfolding header_of
new_response-IsSecured = record { policy = refl; sniffing = refl; framing = refl; referrer = refl }

header_of-without :
    (j k : String) (hs : List (String × String))
    → header_of j (without k hs) ≡ (if k == j then none else header_of j hs)
unfolding header_of without
header_of-without j k [] = ground arith
header_of-without j k ((i, v) ∷ hs) =
    ground (arith, header_of-without j k hs, eq_iff i k, eq_iff i j, eq_iff k j)

header_of-added :
    (j k v x : String) (hs : List (String × String))
    → header_of j hs ≡ some x
    → header_of j (hs ++ (k, v) ∷ []) ≡ some x
unfolding header_of
header_of-added j k v x [] h = cc
header_of-added j k v x ((i, y) ∷ hs) h = ground (arith, header_of-added j k v x hs)

header_of-set_header :
    (j k v x : String) (w : Response)
    → k == j ≡ false
    → header_of j w.headers ≡ some x
    → header_of j (set_header k v w).headers ≡ some x
unfolding set_header
header_of-set_header j k v x w other h =
    header_of-added j k v x (without k w.headers) (header_of-without j k w.headers ∙ rw other h)

header_of-last :
    (k v : String) (hs : List (String × String))
    → header_of k hs ≡ none
    → header_of k (hs ++ (k, v) ∷ []) ≡ some v
unfolding header_of
header_of-last k v [] h = rw eq_refl refl
header_of-last k v ((i, y) ∷ hs) h = ground (arith, header_of-last k v hs)

pub set_header-IsSecured :
    (k v : String) (w : Response)
    → (k == "Content-Security-Policy"
        || k == "X-Content-Type-Options"
        || k == "X-Frame-Options"
        || k == "Referrer-Policy")
      ≡ false
    → IsSecured w
    → IsSecured (set_header k v w)
set_header-IsSecured k v w other h = record {
  policy = header_of-set_header _ k v _ w (ground arith) h.policy;
  sniffing = header_of-set_header _ k v _ w (ground arith) h.sniffing;
  framing = header_of-set_header _ k v _ w (ground arith) h.framing;
  referrer = header_of-set_header _ k v _ w (ground arith) h.referrer;
}

nosniff-IsSecured :
    (w : Response) → IsSecured w → IsSecured (set_header "X-Content-Type-Options" "nosniff" w)
unfolding set_header
nosniff-IsSecured w h = record {
  policy = header_of-set_header _ "X-Content-Type-Options" "nosniff" _ w refl h.policy;
  sniffing =
      header_of-last "X-Content-Type-Options" "nosniff" _
        (header_of-without "X-Content-Type-Options" "X-Content-Type-Options" w.headers);
  framing = header_of-set_header _ "X-Content-Type-Options" "nosniff" _ w refl h.framing;
  referrer = header_of-set_header _ "X-Content-Type-Options" "nosniff" _ w refl h.referrer;
}

pub add_header-IsSecured :
    (k v : String) (w : Response) → IsSecured w → IsSecured (add_header k v w)
unfolding add_header
add_header-IsSecured k v w h = record {
  policy = header_of-added _ k v _ w.headers h.policy;
  sniffing = header_of-added _ k v _ w.headers h.sniffing;
  framing = header_of-added _ k v _ w.headers h.framing;
  referrer = header_of-added _ k v _ w.headers h.referrer;
}

-- A response with the same headers.
pub same_headers-IsSecured : (w w' : Response) → w'.headers ≡ w.headers → IsSecured w → IsSecured w'
same_headers-IsSecured w w' same h = record {
  policy = rw same h.policy;
  sniffing = rw same h.sniffing;
  framing = rw same h.framing;
  referrer = rw same h.referrer;
}

pub http_error-IsSecured :
    (message : String) (code : ℕ) (w : Response)
    → IsSecured w
    → IsSecured (http_error message code w)
unfolding http_error
http_error-IsSecured message code w h = same_headers-IsSecured _ _ refl (
    nosniff-IsSecured (set_header "Content-Type" "text/plain; charset=utf-8" w)
      (set_header-IsSecured "Content-Type" _ w refl h))

pub redirect_to-IsSecured :
    (r : Request) (url : String) (code : ℕ) (w : Response)
    → IsSecured w
    → IsSecured (redirect_to r url code w)
unfolding redirect_to
redirect_to-IsSecured r url code w h =
    let located = set_header-IsSecured "Location" (location url) w refl h in
    elim (Bool-cases (
      not (is_some (header_of "Content-Type" w.headers))
      && (r.method == "GET" || r.method == "HEAD"))) [
        | inl typed ↦ rw typed (
            same_headers-IsSecured _ _ refl
              (set_header-IsSecured "Content-Type" "text/html; charset=utf-8" _ refl located))
        | inr plain ↦ rw plain (same_headers-IsSecured _ _ refl located)
      ]

pub set_cookie-IsSecured : (c : Cookie) (w : Response) → IsSecured w → IsSecured (set_cookie c w)
set_cookie-IsSecured c w h = same_headers-IsSecured w (set_cookie c w) refl h
