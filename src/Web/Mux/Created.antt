-- ===== src/Web/Mux/Created.antt =====
-- What becomes of a link that POST /api/create of internal/web/web.go has answered with.
use swosh.Common.{◌≡◌, refl, sym, ap, ◌∙◌, subst, inl, inr, false, Option, some, eq_refl}
use Prim.Native.String.{String, ◌++◌ as ◌<>◌}
use swosh.Db.{Swosh, find_link}
use swosh.Db.Keys.{find_link-append}
use swosh.World.{World}
use swosh.Swish.Qr.{Lru, Swish}
use swosh.Web.Create.{CreateRequest, NewSwosh}
use swosh.Web.Create.Decode.{CreateBody}
use swosh.Web.Create.Accepted.{IsAccepted}
use swosh.Web.Http.{Request, Response, created}
use swosh.Web.Server.{Server, base_url}
use swosh.Web.Links.Laws.{visible}
use swosh.Web.Pages.{preview}
use swosh.Web.Pages.Laws.{IsPreview, preview-IsPreview}
use swosh.Web.Api.{parsed, create}
use swosh.Web.Api.Insert.{IsRowOf}
use swosh.Web.Api.Outcome.{create-Outcome}
use swosh.Web.Api.Usable.{IsUsable, IsBelow, create-IsUsable}
use swosh.Web.Routes.{Site, public_route, create_route, preview_route, serve_public, serve}
use swosh.Web.Mux.{dispatch, answer, respond}
use swosh.Web.Mux.Match.{Target, handle}
use swosh.Web.Mux.Links.{dispatch-pages}

-- A link that a request may ask for, with the id and the URL that the answer names.
pub record IsMade (s : Server) (asked : Option CreateBody) (w : World) (id url : String)
    : Type 0 where
  pub req : CreateRequest
  pub n : NewSwosh
  pub link : Swosh
  pub given : parsed s asked ≡ some req
  pub accepted : IsAccepted s.phones req (s.outside.clock w.readings) n
  pub row : IsRowOf n link
  pub named : link.id ≡ id
  pub address : url ≡ ◌<>◌ (base_url s) (◌<>◌ "/" id)

module _ (s : Server) (l : Lru) (swish : Swish) (files : Request → Response) where
  created-IsMade :
      (r : Request) (w : World) {id url : String}
      → (create s r w).0.body ≡ created id url
      → (made : IsMade s r.create_body w id url) × (find_link id (create s r w).1.links
          ≡ some made.link)
  created-IsMade r w {id} {url} e = elim (create-Outcome s r w) [
    | inl c ↦ (
      record {
        req = c.req;
        n = c.n;
        link = c.link;
        given = c.given;
        accepted = c.accepted;
        row = c.row;
        named = cc (c.body, e);
        address = cc (c.body, e);
      },
      let same : c.link.id ≡ id = cc (c.body, e) in
          ap (find_link id) c.links
          ∙ find_link-append id w.links c.link c.free
          ∙ rw same (rw eq_refl refl),
    )
    | inr bad ↦ absurd (cc (bad.body, e))
  ]

  -- A request is answered by the handler of its target.
  respond-found :
      (r : Request) (site : Site s l swish) (m path : String) (t : Target)
      → r.method ≡ m
      → r.path ≡ path
      → dispatch m path ≡ t
      → (respond s l swish files r site).0 ≡ answer s l swish files t r site
  unfolding respond
  respond-found r site m path t method there e =
      ap (λ (t : Target). answer s l swish files t r site)
        ((λ i. dispatch (method i) (there i)) ∙ e)

  abbrev at_id : Request → String → Request
  at_id r id = record r { path_id = id }

  respond-create :
      (r : Request) (site : Site s l swish)
      → r.method ≡ "POST"
      → r.path ≡ "/api/create"
      → (respond s l swish files r site).0
        ≡ serve s l swish (public_route create_route) (at_id r "") site
  unfolding dispatch answer
  respond-create r site method path =
      respond-found r site "POST" "/api/create" (dispatch "POST" "/api/create") method path refl

  respond-preview :
      (q : Request) (site : Site s l swish) (id : String)
      → IsUsable id
      → q.method ≡ "GET"
      → q.path ≡ ◌<>◌ "/" id
      → (respond s l swish files q site).0
        ≡ serve s l swish (public_route preview_route) (at_id q id) site
  unfolding answer handle
  respond-preview q site id (valid, free) method path =
      respond-found q site "GET" (◌<>◌ "/" id) _ method path (dispatch-pages id valid free).0

  -- A link in the table is previewed at its path.
  IsPreview-stored :
      (q : Request) (site : Site s l swish) (id : String) (link : Swosh)
      → IsUsable id
      → q.method ≡ "GET"
      → q.path ≡ ◌<>◌ "/" id
      → s.outside.down site.0.statements ≡ false
      → find_link id site.0.links ≡ some link
      → IsPreview s
          (at_id q id)
          (visible s q site.0 (some link))
          (respond s l swish files q site).0.0
  unfolding serve serve_public
  IsPreview-stored q (w, c) id link usable asked path up stored =
      subst (λ (resp : Response). IsPreview s (at_id q id) (visible s q w (some link)) resp)
        (ap (λ o. o.0) (sym (respond-preview q (w, c) id usable asked path)))
        (subst (λ o. IsPreview s (at_id q id) (visible s q w o) (preview s (at_id q id) w).0) stored
          (preview-IsPreview s (at_id q id) w up))

  -- If the site answers POST /api/create with a link, the random numbers being below their bounds,
  -- a link that the body acceptably asks for was made under the id of the answer, and the URL of
  -- the answer is the site's address with a path; a GET of that path, in the state that the first
  -- answer left and if the statement that reads the link does not fail, is answered with the
  -- preview of that link, or with the not found page if it has expired by then.
  pub respond-created :
      (r q : Request) (site : Site s l swish) {id url : String}
      → IsBelow s.outside
      → r.method ≡ "POST"
      → r.path ≡ "/api/create"
      → (respond s l swish files r site).0.0.body ≡ created id url
      → q.method ≡ "GET"
      → q.path ≡ ◌<>◌ "/" id
      → s.outside.down (respond s l swish files r site).0.1.0.statements ≡ false
      → (made : IsMade s r.create_body site.0 id url) × (url ≡ ◌<>◌ (base_url s) q.path)
        × IsPreview s
            (at_id q id)
            (visible s q (respond s l swish files r site).0.1.0 (some made.link))
            (respond s l swish files q (respond s l swish files r site).0.1).0.0
  unfolding serve serve_public
  respond-created r q (w, c) {id} {url} below posted there body asked path up =
      let e = respond-create r (w, c) posted there in
      let body' : (create s (at_id r "") w).0.body ≡ created id url =
        ap (λ o. o.0.body) (sym e) ∙ body in
      let usable = create-IsUsable s below (at_id r "") w body' in
      let (made, stored) = created-IsMade (at_id r "") w body' in
      (
        made,
        made.address ∙ ap (λ t. ◌<>◌ (base_url s) t) (sym path),
        IsPreview-stored q (respond s l swish files r (w, c)).0.1 id made.link usable asked path up
            (ap (λ o. find_link id o.1.0.links) e ∙ stored),
      )
