-- ===== src/Provision/Requests.antt =====
-- web/lib/provision.ts: what a provisioning sends and keeps, and who may start one.
use signet_platform.Prelude.{
  Bool, true, false, not, Option, none, some, List, [], ◌∷◌, ◌++◌, map, filter, head?,
}
use signet_platform.Prelude.Text.{Str, codes, ◌===◌, to_lower, truthy}
use signet_platform.Types.Account.{User, Certificate, NodeCertificate, signet, siwe}
use signet_platform.Effects.Failure.{Answer}
use signet_platform.Effects.Json.{Json, Fields, num, str, obj, end, field}
use signet_platform.Effects.World.{FetchRequest}
use signet_platform.Effects.Host.{Host}
use signet_platform.SessionKey.{Claims, SessionKeypair, SigningSession, number}

-- What `keygen` gives back.
pub record GeneratedKey : Type 0 where
  pub group_public_key : Str
  pub key_id : Str
  pub ethereum_address : Str

pub record ProvisionResult : Type 0 where
  pub group_public_key : Str
  pub key_id : Str
  pub key_address : Str
  pub smart_account : Option Str

-- The arguments of `keygen`; the curve is always "frost_secp256k1".
pub record KeygenRequest : Type 0 where
  pub node_urls : List (Option Str)
  pub group_id : Str
  pub proxy_endpoint : Str
  pub keypair : SessionKeypair
  pub claims : Claims
  pub identity : Str

-- `generateSessionKeypair` and `keygen` of the SDK, the contract read of viem, and the answer of
-- `/v1/auth/node-certificate` as the value of the type that the console takes it for.
pub record Provider : Type 0 where
  pub new_keypair : Answer SessionKeypair
  pub keygen : KeygenRequest → Answer GeneratedKey
  pub account_of : Str → Str → Str → Str → Answer Str
  pub as_certificate : Json → NodeCertificate

-- `needsSignetKey` and `canRestoreSigningSession`
unfoldable pub needs_signet_key : Option User → Bool
needs_signet_key none = false
needs_signet_key (some u) = elim (truthy u.signet_key_address) [ none ↦ true | some a ↦ false ]

unfoldable pub can_restore_signing_session : Option User → Bool
can_restore_signing_session none = false
can_restore_signing_session (some u) = elim u.subject_kind [ siwe ↦ true | signet ↦ false ]

-- `cert.node_urls[0]`
abbrev pub session_node : NodeCertificate → Option Str
session_node cert = head? cert.node_urls

-- `[sessionNode, ...cert.node_urls.filter((n) => n !== sessionNode)]`
unfoldable pub candidates : List Str → List (Option Str)
unfolding ◌===◌
candidates [] = none ∷ []
candidates (first ∷ rest) = some first ∷ map some (filter (λ n. not (n === first)) (first ∷ rest))

unfoldable pub certificate_json : Certificate → Json
certificate_json c = obj (
    field (codes "identity") (str c.identity) (
      field (codes "expiry") (num c.expiry) (
        field (codes "auth_key_pub") (str c.auth_key_pub)
          (field (codes "signature") (str c.signature) end))))

-- The request to the platform's relay; a node that is `undefined` is that word in a header.
unfoldable pub auth_fetch : Host → NodeCertificate → Str → FetchRequest
unfolding certificate_json
auth_fetch host cert session_pub = record {
  method = codes "POST";
  url = host.api_base ++ codes "/v1/node/bootstrap-proxy";
  headers =
      (codes "Content-Type", codes "application/json")
      ∷ (codes "x-node-url", elim (session_node cert) [ none ↦ codes "undefined" | some n ↦ n ])
      ∷ (codes "x-node-path", codes "/v1/auth")
      ∷ [];
  body = some (
      obj (
        field (codes "group_id") (str (to_lower cert.group_id)) (
          field (codes "session_pub") (str session_pub)
            (field (codes "certificate") (certificate_json cert.certificate) end))));
}

abbrev pub certificate_claims : NodeCertificate → Claims
certificate_claims cert = record {
  iss = [];
  sub = [];
  exp = number cert.certificate.expiry;
  aud = [];
  azp = [];
}

unfoldable pub keygen_request : Host → NodeCertificate → SessionKeypair → KeygenRequest
unfolding candidates
keygen_request host cert keypair = record {
  node_urls = candidates cert.node_urls;
  group_id = cert.group_id;
  proxy_endpoint = host.api_base ++ codes "/v1/node/bootstrap-proxy";
  keypair = keypair;
  claims = certificate_claims cert;
  identity = cert.identity;
}

-- The session that is kept for the tab.
abbrev pub session_of : SessionKeypair → NodeCertificate → GeneratedKey → SigningSession
session_of keypair cert key = record {
  keypair = keypair;
  claims = certificate_claims cert;
  group_public_key = key.group_public_key;
  identity = some cert.identity;
  node_url = session_node cert;
}

unfoldable pub key_fields : GeneratedKey → Option Str → Fields
key_fields key account = field (codes "group_public_key") (str key.group_public_key) (
    field (codes "key_id") (str key.key_id) (
      field (codes "key_address") (str key.ethereum_address)
        (field (codes "smart_account") (str (elim account [ none ↦ [] | some a ↦ a ])) end)))

unfoldable pub key_json : GeneratedKey → Option Str → Json
unfolding key_fields
key_json key account = obj (key_fields key account)

abbrev pub result_of : GeneratedKey → Option Str → ProvisionResult
result_of key account = record {
  group_public_key = key.group_public_key;
  key_id = key.key_id;
  key_address = key.ethereum_address;
  smart_account = account;
}
