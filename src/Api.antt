-- ===== src/Api.antt =====
-- web/lib/api.ts: the client of the platform's API. A request's `credentials` are always "include".
pub mod Query
pub mod Endpoints
pub mod AppEndpoints
pub mod Keeps
pub mod Uploads
use signet_platform.Prelude.{ℕ, Option, none, some, List, [], ◌∷◌, ◌++◌, if◌then◌else◌}
use signet_platform.Prelude.Text.{Str, codes, truthy, is_empty}
use signet_platform.Prelude.Decimal.{to_decimal}
use signet_platform.Effects.Failure.{ok, api_error}
use signet_platform.Effects.Json.{Json, null, str, obj, get_field}
use signet_platform.Effects.World.{Exec, FetchRequest, ◌>>=◌, pure, raise}
use signet_platform.Effects.Host.{Host, Response, is_ok, fetch}

-- `storedToken`
unfoldable pub stored_token : Exec (Option Str)
stored_token w = (ok (if w.token_open then w.token else none), w)

-- `storeToken`
unfoldable pub store_token : Option Str → Exec (Unit {0})
store_token token w = (ok tt, if w.token_open then record w { token = truthy token } else w)

module _ (host : Host) where
  -- `safeParse`
  unfoldable pub safe_parse : Str → Json
  safe_parse text = elim (host.parse_json text) [ none ↦ str text | some j ↦ j ]

  -- `text ? safeParse(text) : null`
  unfoldable pub read_json : Str → Json
  unfolding safe_parse
  read_json text = if is_empty text then null else safe_parse text

  -- `json ?? text`
  unfoldable pub error_body : Str → Json
  unfolding read_json
  error_body text = elim (read_json text) [ null ↦ str text | j ↦ j ]

  -- `String(body.error)`, if the body is an object with that member
  error_member : Json → Option Str
  unfolding get_field
  error_member (obj fs) = elim (get_field (codes "error") fs) [
    | none ↦ none
    | some j ↦ some (host.string_of j)
  ]
  error_member _ = none

  -- The message of an `ApiError`
  unfoldable pub api_message : ℕ → Json → Str
  unfolding error_member
  api_message status body = elim (truthy (error_member body)) [
    | none ↦ codes "request failed (" ++ to_decimal status ++ codes ")"
    | some m ↦ m
  ]

  unfoldable pub api_headers : Option Json → Option Str → List (Str × Str)
  api_headers body token =
      elim body [ none ↦ [] | some b ↦ (codes "Content-Type", codes "application/json") ∷ [] ]
      ++ elim (truthy token) [
        | none ↦ []
        | some t ↦ (codes "Authorization", codes "Bearer " ++ t) ∷ []
      ]

  unfoldable pub api_fetch : Str → Str → Option Json → Option Str → FetchRequest
  unfolding api_headers
  api_fetch method path body token = record {
    method = method;
    url = host.api_base ++ path;
    headers = api_headers body token;
    body = body;
  }

  unfoldable pub read_answer : Response → Exec Json
  unfolding read_json error_body api_message
  read_answer res =
      if is_ok res
      then pure (read_json res.text)
      else raise (api_error res.status (api_message res.status (error_body res.text)))

  unfoldable pub request : Str → Str → Option Json → Exec Json
  unfolding stored_token api_fetch read_answer
  request method path body = do
    token ← stored_token
    res ← fetch host (api_fetch method path body token)
    read_answer res
