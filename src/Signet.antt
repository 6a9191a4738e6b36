-- ===== src/Signet.antt =====
-- web/lib/signet.ts: threshold signing by the bootstrap group, and Sign-In with Ethereum.
pub mod Signing
pub mod Siwe
use signet_platform.Prelude.{
  ℕ, Bool, Option, none, some, List, [], ◌∷◌, ◌++◌, ◌==◌, head?, if◌then◌else◌,
}
use signet_platform.Prelude.Text.{Str, codes, truthy}
use signet_platform.Prelude.Hex.{hex_to_bytes}
use signet_platform.Types.Account.{NetworkConfig}
use signet_platform.Effects.Failure.{
  Result, ok, err, Answer, external, or_throw, session_expired, no_group_signature,
  no_bootstrap_nodes, node_refused, syntax_error,
}
use signet_platform.Effects.Json.{Json, Object, str, obj, set_field, string_member, with_members}
use signet_platform.Effects.World.{
  Exec, ◌>>=◌, ◌>>◌, pure, raise, lift, await, called, FetchRequest,
}
use signet_platform.Effects.Host.{Host, Response, is_ok, fetch}
use signet_platform.SessionKey.{Claims, SessionKeypair, clear_signing_session}

-- `signSignRequest` of the SDK: the signed request, an object.
abbrev pub SignRequest : Type 0
SignRequest = SessionKeypair → Claims → Str → List ℕ → Option Str → Answer Object

pub record SignOptions : Type 0 where
  pub network : NetworkConfig
  pub session_keypair : SessionKeypair
  pub claims : Claims
  pub digest_hex : Str
  pub identity : Option Str
  pub node_url : Option Str

-- `opts.nodeUrl ?? opts.network.bootstrap_nodes[0]`
abbrev pub chosen_node : SignOptions → Option Str
chosen_node o = elim o.node_url [ none ↦ head? o.network.bootstrap_nodes | some n ↦ some n ]

-- `hostOf`
unfoldable pub host_of : Host → Str → Str
host_of host url = elim (host.url_host url) [ none ↦ url | some h ↦ h ]

-- `body.ethereum_signature ?? body.signature`
signature_of : Json → Option Str
unfolding string_member
signature_of body = elim (string_member (codes "ethereum_signature") body) [
  | none ↦ string_member (codes "signature") body
  | some s ↦ some s
]

-- The request to the platform's relay.
unfoldable pub sign_fetch : Host → Str → Object → FetchRequest
unfolding set_field
sign_fetch host node signed = record {
  method = codes "POST";
  url = host.api_base ++ codes "/v1/node/bootstrap-proxy";
  headers =
      (codes "Content-Type", codes "application/json")
      ∷ (codes "x-node-url", node)
      ∷ (codes "x-node-path", codes "/v1/sign")
      ∷ [];
  body = some (obj (set_field (codes "curve") (str (codes "frost_secp256k1")) signed));
}

-- The signature in the text of the relay's answer.
pub read_body : Host → Str → Result Str
unfolding signature_of with_members
read_body host text = elim (host.parse_json text) [
  | none ↦ err syntax_error
  | some parsed ↦ elim (with_members parsed) [
    | err e ↦ err e
    | ok body ↦ or_throw no_group_signature (truthy (signature_of body))
  ]
]

-- What is done with the relay's answer.
read_signature : Host → Str → Response → Exec Str
unfolding read_body host_of clear_signing_session
read_signature host node res =
    if is_ok res
    then lift (read_body host res.text)
    else if res.status == 401
    then (do clear_signing_session; raise session_expired)
    else raise (node_refused (host_of host node) res.text)

unfoldable pub sign_with_bootstrap_group : Host → SignRequest → SignOptions → Exec Str
unfolding read_signature sign_fetch
sign_with_bootstrap_group host sign_request o = do
  await (called (codes "signSignRequest"))
  signed ← lift (
      external (
        sign_request o.session_keypair o.claims o.network.bootstrap_group
          (hex_to_bytes o.digest_hex) o.identity))
  node ← lift (or_throw no_bootstrap_nodes (truthy (chosen_node o)))
  res ← fetch host (sign_fetch host node signed)
  read_signature host node res
