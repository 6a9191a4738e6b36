-- ===== src/Effects/Host.antt =====
-- What the page's host answers: the network, the JSON parser and the URL parser of the browser.
use signet_platform.Prelude.{ℕ, Bool, Option, List, leb, ltb, ◌&&◌}
use signet_platform.Prelude.Text.{Str}
use signet_platform.Effects.Failure.{ok, Answer, external}
use signet_platform.Effects.Json.{Json}
use signet_platform.Effects.World.{Event, fetched, FetchRequest, Exec, ◌>>=◌, ◌>>◌, await}

pub record Response : Type 0 where
  pub status : ℕ
  pub text : Str

-- `res.ok`
abbrev pub is_ok : Response → Bool
is_ok r = leb 200 r.status && ltb r.status 300

-- `respond` is the answer to a request after so many other calls; `threw` is a network error.
pub record Host : Type 0 where
  pub api_base : Str
  pub respond : List Event → FetchRequest → Answer Response
  pub parse_json : Str → Option Json
  pub url_host : Str → Option Str
  -- `String(value)`
  pub string_of : Json → Str

abbrev pub fetch : Host → FetchRequest → Exec Response
fetch host req = do
  trace ← λ w. (ok w.trace, w)
  await (fetched req)
  λ w. (external (host.respond trace req), w)
