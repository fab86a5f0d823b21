-- ===== src/Web/Http.antt =====
-- Requests and responses as internal/web sees them through net/http, and the pages' data.
pub mod Secured
use swosh.Common.{
  ℕ, code, String, Bool, true, false, ◌||◌, Option, none, some, List, [], ◌∷◌, ◌++◌, ◌==◌, eqb, not,
  ◌&&◌, is_some, if◌then◌else◌,
}
use swosh.Common.Int.{ℤ}
use swosh.Common.Text.Location.{location, moved_url}
use swosh.Common.Bytes.{Bytes}
use swosh.Db.{Time}
use swosh.Web.Create.Decode.{CreateBody}

pub record Request : Type 0 where
  pub method : String
  pub host : String
  -- `r.URL.Path`, `r.PathValue("id")` and `r.URL.RequestURI()`
  pub path : String
  pub path_id : String
  pub request_uri : String
  pub cookie : String → Option String
  -- a missing header is the empty text
  pub header : String → String
  -- the first value of a field in the query, and in the form of the body
  pub query : String → Option String
  pub post_form : String → Option String
  pub basic_auth : Option (String × String)
  -- what net/url makes of the headers Origin (its host) and Referer (its host and request URI)
  pub origin_host : Option String
  pub referer : Option (String × String)
  -- the body, if it is no longer than allowed and JSON of the form that the handler reads
  pub create_body : Option CreateBody
  pub ids_body : Option (List String)

pub record Cookie : Type 0 where
  pub name : String
  pub value : String
  pub path : String
  pub expires : Option Time
  pub max_age : ℤ
  pub http_only : Bool
  pub secure : Bool
  pub same_site : String

pub record IndexPage : Type 0 where
  pub base_url : String
  pub max_amount : ℕ
  pub long_expiry : ℕ
  pub logged_in : Bool

pub record PreviewData : Type 0 where
  pub base_url : String
  pub id : String
  pub payee : String
  pub amount : ℤ
  pub description : String
  pub expires_on : String
  pub swish_uri : String
  -- none where `mustTr` panics
  pub hint : Option String

pub record LoginPage : Type 0 where
  pub next : String
  pub username : String
  pub error : String
  pub logged_out : Bool

pub record AdminLink : Type 0 where
  pub original_id : String
  pub id : String
  pub payee : String
  pub amount : String
  pub description : String
  pub expires_on : String
  pub created_at : String
  pub last_accessed_at : String
  pub can_update : Bool
  pub can_delete : Bool

pub record AdminPage : Type 0 where
  pub user : String
  pub csrf : String
  pub error : String
  pub count : ℕ
  pub can_delete : Bool
  pub links : List AdminLink

-- A template with the data that it is executed with.
pub data Page : Type 0 where
  index_html : IndexPage → Page
  preview_html : PreviewData → Page
  not_found_html : Page
  login_html : LoginPage → Page
  logout_html : Page
  admin_html : AdminPage → Page
  admin_single_html : AdminPage → Page

pub data Body : Type 0 where
  empty : Body
  plain : String → Body
  page : Page → Body
  -- the JSON of createResponse and of errorResponse; the reason is none where `mustTr` panics
  created : String → String → Body
  refused : Option String → String → Body
  -- the link to the new place that `http.Redirect` writes
  moved : String → Body
  png : Bytes → Body

-- What has been written to a ResponseWriter.
pub record Response : Type 0 where
  pub status : ℕ
  pub headers : List (String × String)
  pub cookies : List Cookie
  pub body : Body

abbrev pub content_security_policy : String
content_security_policy =
    "default-src 'self'; script-src 'self'; style-src 'self'; img-src 'self' data:; font-src 'self'; object-src 'none'; base-uri 'self'; form-action 'self'; frame-ancestors 'none'"

-- What `securityHeaders` sets before a handler runs.
abbrev pub security_headers : List (String × String)
security_headers =
    ("Content-Security-Policy", content_security_policy)
    ∷ ("X-Content-Type-Options", "nosniff")
    ∷ ("X-Frame-Options", "DENY")
    ∷ ("Referrer-Policy", "strict-origin-when-cross-origin")
    ∷ []

-- The response as a handler gets it.
abbrev pub new_response : Response
new_response = record { status = 200; headers = security_headers; cookies = []; body = empty }

-- The first value of a header.
unfoldable pub header_of : String → List (String × String) → Option String
header_of k [] = none
header_of k ((j, v) ∷ hs) = if j == k then some v else header_of k hs

unfoldable pub without : String → List (String × String) → List (String × String)
without k [] = []
without k ((j, v) ∷ hs) = if j == k then without k hs else (j, v) ∷ without k hs

-- `Header().Set` and `Header().Add`
unfoldable pub set_header : String → String → Response → Response
unfolding without
set_header k v w = record w { headers = without k w.headers ++ (k, v) ∷ [] }

unfoldable pub add_header : String → String → Response → Response
add_header k v w = record w { headers = w.headers ++ (k, v) ∷ [] }

abbrev pub set_cookie : Cookie → Response → Response
set_cookie c w = record w { cookies = w.cookies ++ c ∷ [] }

abbrev pub status_text : ℕ → String
status_text code =
    if eqb code 401
    then "Unauthorized"
    else if eqb code 403
    then "Forbidden"
    else if eqb code 500
    then "Internal Server Error"
    else ""

-- `http.Error`
unfoldable pub http_error : String → ℕ → Response → Response
unfolding set_header
http_error message code w =
    record (set_header "X-Content-Type-Options" "nosniff"
      (set_header "Content-Type" "text/plain; charset=utf-8" w)) {
        status = code;
        body = plain message;
      }

-- `http.Redirect`, to a URL that starts with one slash; an answer to a GET has a link there in its
-- body.
unfoldable pub redirect_to : Request → String → ℕ → Response → Response
unfolding set_header header_of
redirect_to r url code w =
    let bare = not (is_some (header_of "Content-Type" w.headers)) in
    let sent = set_header "Location" (location url) w in
    let typed =
      if bare && (r.method == "GET" || r.method == "HEAD")
      then set_header "Content-Type" "text/html; charset=utf-8" sent
      else sent in
    record w {
      headers = typed.headers;
      status = code;
      body = if bare && r.method == "GET" then moved (moved_url url) else w.body;
    }

abbrev pub is_safe_method : String → Bool
is_safe_method m = m == "GET" || m == "HEAD" || m == "OPTIONS"

-- `http.CrossOriginProtection.Check` with nothing exempted: whether it returns nil.
unfoldable pub same_origin : Request → Bool
same_origin r =
    if is_safe_method r.method
    then true
    else if r.header "Sec-Fetch-Site" == ""
    then r.header "Origin" == "" || (elim r.origin_host [ none ↦ false | some h ↦ h == r.host ])
    else r.header "Sec-Fetch-Site" == "same-origin" || r.header "Sec-Fetch-Site" == "none"
