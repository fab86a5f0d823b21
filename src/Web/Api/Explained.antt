-- ===== src/Web/Api/Explained.antt =====
-- Every refusal of the create handler has a text: `mustTr` of internal/web/i18n.go does not panic.
use swosh.Common.{ℕ, String, ◌≡◌, ◌⊎◌, none, some, [], Result, ok, err}
use swosh.World.{World}
use swosh.Web.I18n.{Lang, tr}
use swosh.Web.Create.{ValidationError, CreateRequest, NewSwosh, validate}
use swosh.Web.Http.{Request, Response, Body, created, refused}
use swosh.Web.Server.{Server, request_lang}
use swosh.Web.Api.{parsed}

-- A key with arguments has a text in each language.
abbrev IsText : ValidationError → Type 0
IsText v = (l : Lang) → (text : String) × (tr l v.key v.args ≡ some text)

-- If there is an error, it has a text.
data Explained {A : Type 0} : Result ValidationError A → Type 0 where
  fine : (a : A) → Explained (ok a)
  told : {v : ValidationError} → IsText v → Explained (err v)

module _ (s : Server) where
  -- The text with which a request may be refused, in the language of the request, with the status
  -- and the field that it is about.
  abbrev pub IsReason : Request → World → ℕ → String → String → Type 0
  IsReason r w status text field =
      ((parsed s r.create_body ≡ none)
        × (status ≡ 400)
        × (field ≡ "")
        × (tr (request_lang s r) "api.badinput" [] ≡ some text))
      ⊎ ((req : CreateRequest) × (v : ValidationError) × (parsed s r.create_body ≡ some req)
          × (validate s.phones req (s.outside.clock w.readings) ≡ err v)
          × (status ≡ 400)
          × (field ≡ v.field)
          × (tr (request_lang s r) v.key v.args ≡ some text))
      ⊎ ((req : CreateRequest) × (n : NewSwosh) × (parsed s r.create_body ≡ some req)
          × (validate s.phones req (s.outside.clock w.readings) ≡ ok n)
          × (status ≡ 500)
          × (field ≡ "")
          × (tr (request_lang s r) "api.failed" [] ≡ some text))

  -- An answer to a request: a link, or a refusal with such a text.
  abbrev Answers : Request → World → ℕ → Body → Type 0
  Answers r w status (created id url) = status ≡ 200
  Answers r w status (refused (some text) field) = IsReason r w status text field
  Answers r w status (refused none field) = ⊥
  Answers r w status body = ⊥

  abbrev pub HasReason : Request → World → Response → Type 0
  HasReason r w resp = Answers r w resp.status resp.body
