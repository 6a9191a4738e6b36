-- ===== src/Api/Keeps.antt =====
-- web/lib/api.ts: a request leaves both storages of the tab as they are.
use signet_platform.Prelude.{refl, Option, none, if◌then◌else◌, arith}
use signet_platform.Prelude.Text.{Str}
use signet_platform.Effects.Json.{Json}
use signet_platform.Effects.Keeps.{Keeps, Keeps->>=, stored}
use signet_platform.Effects.Host.{Host, Response, fetch}
use signet_platform.Api.{request, read_answer, api_fetch, stored_token}
use signet_platform.Api.Endpoints.{Call}
use signet_platform.Api.AppEndpoints.{send}

module _ (host : Host) where
  Keeps-read_answer : (res : Response) → Keeps stored (read_answer host res)
  unfolding read_answer
  Keeps-read_answer res w = ground arith

  pub Keeps-request :
      (method path : Str) (body : Option Json) → Keeps stored (request host method path body)
  unfolding request stored_token
  Keeps-request method path body w =
      Keeps->>= stored
        (fetch host (api_fetch host method path body (if w.token_open then w.token else none)))
        (read_answer host) (λ v. refl) Keeps-read_answer w

  pub Keeps-send : (c : Call) → Keeps stored (send host c)
  unfolding send
  Keeps-send c = Keeps-request c.method c.path c.body
