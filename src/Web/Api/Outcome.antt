-- ===== src/Web/Api/Outcome.antt =====
-- What POST /api/create of internal/web/web.go does, on every path.
use swosh.Common.{
  ℕ, ◌+◌, code, String, ◌≡◌, refl, ◌∙◌, ◌⊎◌, inl, inr, Option, none, some, [], ◌∷◌, ◌++◌, Result,
  ok, err,
}
use swosh.Db.{Swosh, DbError, find_link}
use swosh.World.{World, now}
use swosh.Web.Create.{CreateRequest, NewSwosh, ValidationError, validate}
use swosh.Web.Create.Accepted.{IsAccepted, validate_iff}
use swosh.Web.Http.{Request, Response, created, refused}
use swosh.Web.Server.{Server, base_url}
use swosh.Web.Api.{insert, create_failed, insert_answer, validated, decoded, parsed, create}
use swosh.Web.Api.Insert.{IsRowOf, Inserted, SameRest, insert-Inserted}
use Prim.Native.String.{◌++◌ as ◌<>◌}

module _ (s : Server) where
  -- 200: the body was an acceptable request, and exactly the link that it asks for was added.
  pub record IsCreated (parsed : Option CreateRequest) (w : World) (resp : Response) (w' : World)
      : Type 0 where
    pub req : CreateRequest
    pub n : NewSwosh
    pub link : Swosh
    pub given : parsed ≡ some req
    pub accepted : IsAccepted s.phones req (s.outside.clock w.readings) n
    pub status : resp.status ≡ 200
    pub body : resp.body ≡ created link.id (◌<>◌ (base_url s) (◌<>◌ "/" link.id))
    pub row : IsRowOf n link
    pub free : find_link link.id w.links ≡ none
    pub links : w'.links ≡ w.links ++ link ∷ []
    pub users : w'.users ≡ w.users
    pub success : w'.create_success ≡ w.create_success + 1
    pub failed : w'.create_failed ≡ w.create_failed

  -- 400 or 500: no link was added.
  pub record IsRefused (w : World) (resp : Response) (w' : World) : Type 0 where
    pub status : (resp.status ≡ 400) ⊎ (resp.status ≡ 500)
    pub reason : Option String
    pub field : String
    pub body : resp.body ≡ refused reason field
    pub links : w'.links ≡ w.links
    pub users : w'.users ≡ w.users
    pub success : w'.create_success ≡ w.create_success
    pub failed : w'.create_failed ≡ w.create_failed + 1

  abbrev pub Outcome : Option CreateRequest → World → Response × World → Type 0
  Outcome p w (resp, w') = IsCreated p w resp w' ⊎ IsRefused w resp w'

  create_failed-IsRefused :
      (code : ℕ) (reason : Option String) (field : String) (w₀ w : World)
      → (code ≡ 400) ⊎ (code ≡ 500)
      → w.links ≡ w₀.links
      → SameRest w₀ w
      → IsRefused w₀ (create_failed s code reason field w).0 (create_failed s code reason field w).1
  unfolding create_failed
  create_failed-IsRefused code reason field w₀ w h links rest = record {
    status = h;
    reason = reason;
    field = field;
    body = refl;
    links = links;
    users = rest.users;
    success = rest.success;
    failed = rw rest.failed refl;
  }

  validated-Outcome :
      (r : Request) (req : CreateRequest) (p : Option CreateRequest) (w₀ w : World)
      (o : Result ValidationError NewSwosh)
      → p ≡ some req
      → validate s.phones req (s.outside.clock w₀.readings) ≡ o
      → w.links ≡ w₀.links
      → SameRest w₀ w
      → Outcome p w₀ (validated s r o w)
  validated-Outcome r req p w₀ w (err v) given valid links rest =
      inr (create_failed-IsRefused 400 _ v.field w₀ w (inl refl) links rest)
  validated-Outcome r req p w₀ w (ok n) given valid links rest =
      answered (insert s n w).0 (insert s n w).1 (insert-Inserted s n w).0 (insert-Inserted s n w).1
    where
      answered :
          (found : Result DbError Swosh) (w' : World)
          → Inserted n w found w'
          → SameRest w w'
          → Outcome p w₀ (insert_answer s r found w')
      answered (err e) w' same rest' = inr (
          create_failed-IsRefused 500 _ "" w₀ w' (inr refl) (same ∙ links) (record {
            users = rest'.users ∙ rest.users;
            success = rest'.success ∙ rest.success;
            failed = rest'.failed ∙ rest.failed;
            expired = rest'.expired ∙ rest.expired;
          }))
      answered (ok sw) w' (free, added, row) rest' = inl (record {
        req = req;
        n = n;
        link = sw;
        given = given;
        accepted = (validate_iff s.phones req _ n).0 valid;
        status = refl;
        body = refl;
        row = row;
        free = rw (← links) free;
        links = rw (← links) added;
        users = rest'.users ∙ rest.users;
        success = rw (rest'.success, rest.success) refl;
        failed = rest'.failed ∙ rest.failed;
      })

  decoded-Outcome :
      (r : Request) (w : World) (p : Option CreateRequest) → Outcome p w (decoded s r p w)
  unfolding now
  decoded-Outcome r w none = inr (
      create_failed-IsRefused 400 _ "" w w (inl refl) refl
        (record { users = refl; success = refl; failed = refl; expired = refl }))
  decoded-Outcome r w (some req) =
      validated-Outcome r req (some req) w (record w { readings = w.readings + 1 }) _ refl refl refl
        (record { users = refl; success = refl; failed = refl; expired = refl })

  -- POST /api/create answers 200 with the id and the URL of a link and adds exactly that link,
  -- which is one that the body acceptably asks for under an id that no link had, counting a
  -- success; or it answers 400 or 500, changes no table and counts a failure.
  pub create-Outcome : (r : Request) (w : World) → Outcome (parsed s r.create_body) w (create s r w)
  unfolding create
  create-Outcome r w = decoded-Outcome r w (parsed s r.create_body)
