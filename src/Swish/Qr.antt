-- ===== src/Swish/Qr.antt =====
-- internal/swish/qr.go: QR codes from Swish, with a cache of recent ones.
pub mod Laws
use swosh.Common.{
  ℕ, zero, suc, ◌+◌, ◌-◌, ◌*◌, ◌/◌, ◌%◌, ◌^◌, ◌≤◌, ◌<◌, Char, code, String, len, ◌≡◌, refl, sym, ap,
  ◌∙◌, subst, ◌≢◌, ◌↔◌, ◌⊎◌, inl, inr, Bool, true, false, not, ◌&&◌, ◌||◌, Option, none, some, List,
  [], ◌∷◌, ◌++◌, map, arith, ◌==◌, eq_iff, eq_refl, ltb, leb, eqb, if◌then◌else◌, ltb→lt, lt→ltb,
  leb→le, eqb_iff, Bool-cases, Option-cases, Result, ok, err, Result-cases, length, get_or, all,
  length-append, All, contains,
}
use swosh.Common.Bytes.{Bytes, take, utf8}
use swosh.Swish.{Payment, marshal_fields}
use swosh.Swish.Json.{json_key, json_string, json_int, json_bool}
use swosh.Common.Int.{pos}

abbrev pub qr_cache_size : ℕ
qr_cache_size = 1024

abbrev pub max_qr_size : ℕ
max_qr_size = 2 ^ 20

-- github.com/hashicorp/golang-lru: `New` at a size, `Get`, which marks an entry as recent, and `Add`,
-- which may evict another.
pub record Lru : Type 1 where
  pub Cache : Type 0
  pub new : ℕ → Cache
  pub get : Payment → Cache → Option Bytes × Cache
  pub add : Payment → Bytes → Cache → Cache

-- What net/http, the network and Swish's server make of a request.
pub data Answer : Type 0 where
  -- the request cannot be built, or there is no answer to it
  not_built no_answer : Answer
  -- the status code, and the body or none if it cannot be read
  answered : ℕ → Option Bytes → Answer

pub data QrError : Type 0 where
  build_failed fetch_failed read_failed : QrError
  bad_status : ℕ → QrError

-- `marshal` of a `qrRequest`
unfoldable pub qr_request : Payment → Bytes
unfolding marshal_fields json_key json_string json_int
qr_request p =
    b'{'
    ∷ (marshal_fields p
        ++ b','
          ∷ (json_key "format"
              ++ (json_string "png"
                  ++ b','
                    ∷ (json_key "size"
                        ++ (json_int (pos 300)
                            ++ b','
                              ∷ (json_key "border"
                                  ++ (json_int (pos 2)
                                      ++ b','
                                        ∷ (json_key "transparent"
                                            ++ (json_bool true ++ b'}' ∷ [])))))))))

-- The answer to the n-th request, which has a body.
abbrev pub Swish : Type 0
Swish = ℕ → Bytes → Answer

module _ (l : Lru) (swish : Swish) where
  pub record QrClient : Type 0 where
    pub cache : l.Cache
    -- how many requests have been made
    pub asked : ℕ

  -- `NewQRClient`
  abbrev pub new_qr_client : QrClient
  new_qr_client = record { cache = l.new qr_cache_size; asked = 0 }

  -- What `PNG` makes of an answer; only a whole answer with status 200 is cached.
  abbrev pub received : Payment → QrClient → Answer → Result QrError Bytes × QrClient
  received p c not_built = (err build_failed, c)
  received p c no_answer = (err fetch_failed, c)
  received p c (answered status none) =
      if not (eqb status 200) then (err (bad_status status), c) else (err read_failed, c)
  received p c (answered status (some body)) =
      if not (eqb status 200) then (err (bad_status status), c) else (
        ok (take max_qr_size body),
        record c { cache = l.add p (take max_qr_size body) c.cache },
      )

  abbrev pub unless_cached : Payment → ℕ → Option Bytes × l.Cache → Result QrError Bytes × QrClient
  unless_cached p n (some png, cache) = (ok png, record { cache = cache; asked = n })
  unless_cached p n (none, cache) =
      received p (record { cache = cache; asked = n + 1 }) (swish n (qr_request p))

  -- The method `PNG`
  unfoldable pub png : Payment → QrClient → Result QrError Bytes × QrClient
  unfolding qr_request
  png p c = unless_cached p c.asked (l.get p c.cache)
