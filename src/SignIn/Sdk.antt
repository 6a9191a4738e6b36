-- ===== src/SignIn/Sdk.antt =====
-- What signing in uses of the SDK and of the platform's answers.
use signet_platform.Prelude.{ℕ, ◌*◌, Bool, false, Option, List, ltb}
use signet_platform.Prelude.Text.{Str}
use signet_platform.Types.Account.{Session}
use signet_platform.Effects.Failure.{Answer}
use signet_platform.Effects.Json.{Json}
use signet_platform.SessionKey.{Claims, number, other, SessionKeypair}
use signet_platform.Signet.{SignRequest}
use signet_platform.Signet.Siwe.{Challenge}
use signet_platform.Provision.Requests.{Provider, GeneratedKey}
use signet_platform.Api.Query.{Urls}

-- `Challenge` of web/lib/api.ts; its `method`, `expires_at` and `issued_at` are not read.
pub record LoginChallenge : Type 0 where
  pub nonce : Str
  pub statement : Str
  pub message : Option Str
  pub digest : Option Str
  pub domain : Option Str
  pub chain_id : Option ℕ
  pub uri : Option Str

-- The challenge as `siweSignIn` takes it.
abbrev pub siwe_challenge : LoginChallenge → Challenge
siwe_challenge c = record {
  nonce = c.nonce;
  statement = c.statement;
  domain = c.domain;
  chain_id = c.chain_id;
  uri = c.uri;
}

-- `VerifyResult` of web/lib/api.ts; its `expires_at` is not read.
pub record VerifyResult : Type 0 where
  pub session : Session
  pub token : Str

-- The configuration of `authenticateWithBootstrap` and of `keygen`
pub record GroupConfig : Type 0 where
  pub group_id : Str
  pub node_urls : List Str
  pub proxy_endpoint : Str

-- `Proof` is the proof with the modulus that comes with it. An answer of the API is taken as the
-- value of the type that the console takes it for.
pub record Sdk : Type 1 where
  pub Proof : Type 0
  pub oauth_callback : Str → Answer Str
  pub decode_token : Str → Answer Claims
  pub server_proof : Str → Str → Str → Answer Proof
  pub authenticate : GroupConfig → Proof → Str → Claims → Answer (Unit {0})
  pub keygen : GroupConfig → SessionKeypair → Claims → Answer GeneratedKey
  -- the client, the callback's path and where to return to
  pub start_oauth : Str → Str → Str → Answer (Unit {0})
  pub return_to : Option Str
  pub sign_request : SignRequest
  pub provider : Provider
  pub urls : Urls
  pub as_challenge : Json → LoginChallenge
  pub as_verified : Json → VerifyResult

-- `claims.exp * 1000 < Date.now()`, which a value that is no number makes false
unfoldable pub token_is_over : Claims → ℕ → Bool
token_is_over c now = elim c.exp [ number n ↦ ltb (n * 1000) now | other ↦ false ]
