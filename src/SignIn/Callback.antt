-- ===== src/SignIn/Callback.antt =====
-- web/app/auth/callback/page.tsx: `run`, which completes a sign-in after the redirect.
use signet_platform.Prelude.{not, Option, none, some, [], ◌∷◌, ◌++◌, filter, head?, if◌then◌else◌}
use signet_platform.Prelude.Text.{Str, codes, ◌===◌, truthy}
use signet_platform.Types.Account.{NetworkConfig}
use signet_platform.Effects.Failure.{
  external, or_throw, lost_challenge, token_expired, no_bootstrap_nodes, thrown, ok,
}
use signet_platform.Effects.Json.{Fields, end}
use signet_platform.Effects.Stages.{
  LoginStage, session_key, proving, registering, keygen, signing, verifying,
}
use signet_platform.Effects.World.{
  Exec, ◌>>=◌, ◌>>◌, pure, raise, lift, emit, await, called, login_stage, signed_in, navigated,
  nonce_key, get_item, set_item, remove_item,
}
use signet_platform.Effects.Host.{Host}
use signet_platform.Api.{store_token}
use signet_platform.Api.Endpoints.{Endpoint, call_of, text_field, maybe_field}
use signet_platform.Api.AppEndpoints.{send}
use signet_platform.SessionKey.{
  Claims, SessionKeypair, SigningSession, Codec, store_signing_session,
}
use signet_platform.Signet.{sign_with_bootstrap_group, SignOptions}
use signet_platform.Provision.Requests.{GeneratedKey, key_fields}
use signet_platform.Provision.Steps.{counterfactual_account}
use signet_platform.SignIn.Sdk.{Sdk, VerifyResult, GroupConfig, token_is_over}

-- `rememberNonce`, `recallNonce` and `forgetNonce` of web/lib/signet.ts
abbrev pub remember_nonce : Str → Exec (Unit {0})
remember_nonce nonce = set_item nonce_key nonce

abbrev pub recall_nonce : Exec (Option Str)
recall_nonce = get_item nonce_key

abbrev pub forget_nonce : Exec (Unit {0})
forget_nonce = remove_item nonce_key

abbrev pub at : LoginStage → Exec (Unit {0})
at s = emit (login_stage s)

-- The node that the whole sign-in is pinned to, alone.
abbrev pub pinned : Host → NetworkConfig → Str → GroupConfig
pinned host network node = record {
  group_id = network.bootstrap_group;
  node_urls = node ∷ [];
  proxy_endpoint = host.api_base ++ codes "/v1/node/bootstrap-proxy";
}

-- The same node before the others.
unfoldable pub pinned_first : Host → NetworkConfig → Str → GroupConfig
unfolding ◌===◌
pinned_first host network node = record (pinned host network node) {
  node_urls = node ∷ filter (λ n. not (n === node)) network.bootstrap_nodes;
}

abbrev pub challenge_options : NetworkConfig → SessionKeypair → Claims → Str → Str → SignOptions
challenge_options network keypair claims digest node = record {
  network = network;
  session_keypair = keypair;
  claims = claims;
  digest_hex = digest;
  identity = none;
  node_url = some node;
}

-- The body of the verification.
unfoldable pub verify_body : Str → Str → Str → Option Str → Fields
verify_body nonce signature key account = text_field (codes "method") (codes "signet") (
    text_field (codes "nonce") nonce (
      text_field (codes "signature") signature
        (text_field (codes "group_public_key") key (maybe_field (codes "account") account end))))

abbrev pub signed_session : SessionKeypair → Claims → GeneratedKey → Str → SigningSession
signed_session keypair claims key node = record {
  keypair = keypair;
  claims = claims;
  group_public_key = key.group_public_key;
  identity = none;
  node_url = some node;
}

module _ (sdk : Sdk) (host : Host) (json : Codec) (network : NetworkConfig) where
  open sdk use {Proof}

  -- The token, which must not be over, and a fresh session key.
  unfoldable pub open_steps : Exec (Str × Claims × SessionKeypair)
  unfolding token_is_over
  open_steps = do
    nonce ← recall_nonce
    lift (or_throw lost_challenge (truthy nonce))
    at session_key
    await (called (codes "handleOAuthCallback"))
    jwt ← lift (external (sdk.oauth_callback (codes "/api/auth/token")))
    claims ← lift (external (sdk.decode_token jwt))
    now ← λ w. (ok w.now, w)
    if token_is_over claims now then raise token_expired else pure tt
    await (called (codes "generateSessionKeypair"))
    keypair ← lift (external sdk.provider.new_keypair)
    pure (jwt, claims, keypair)

  -- The session is opened at the pinned node, and the key is located from it.
  unfoldable pub key_steps : Str × Claims × SessionKeypair → Exec (Str × GeneratedKey)
  unfolding pinned_first
  key_steps (jwt, claims, keypair) = do
    at proving
    await (called (codes "generateServerProof"))
    proof ← lift (external (sdk.server_proof (codes "/api/bundler") jwt keypair.public_key_hex))
    at registering
    node ← lift (or_throw no_bootstrap_nodes (truthy (head? network.bootstrap_nodes)))
    await (called (codes "authenticateWithBootstrap"))
    lift
        (external (sdk.authenticate (pinned host network node) proof keypair.public_key_hex claims))
    at keygen
    await (called (codes "keygen"))
    key ← lift (external (sdk.keygen (pinned_first host network node) keypair claims))
    pure (node, key)

  -- The group signs the platform's challenge, and the platform verifies the signature.
  unfoldable pub verify_steps :
      Str × Claims × SessionKeypair → Str × GeneratedKey → Exec (Option Str × VerifyResult)
  unfolding verify_body
  verify_steps (jwt, claims, keypair) (node, key) = do
    at signing
    answer ← send host (call_of sdk.urls (Endpoint.challenge (codes "signet") none))
    digest ← lift (or_throw (thrown (codes "TypeError")) (sdk.as_challenge answer).digest)
    signature ←
        sign_with_bootstrap_group host sdk.sign_request
          (challenge_options network keypair claims digest node)
    at verifying
    account ← counterfactual_account host sdk.provider network key.group_public_key
    verified ← send host (
        call_of sdk.urls (
          Endpoint.verify
            (verify_body (sdk.as_challenge answer).nonce signature key.group_public_key account)))
    pure (account, sdk.as_verified verified)

  -- What follows the verification.
  unfoldable pub enter_steps :
      Str × Claims × SessionKeypair
      → Str × GeneratedKey
      → Option Str × VerifyResult
      → Exec (Unit {0})
  unfolding store_signing_session store_token key_fields
  enter_steps (jwt, claims, keypair) (node, key) (account, result) = do
    store_signing_session json (signed_session keypair claims key node)
    forget_nonce
    store_token (some result.token)
    emit (signed_in result.token)
    send host (call_of sdk.urls (Endpoint.record_signet_key (key_fields key account)))
    emit (navigated (elim (truthy sdk.return_to) [ none ↦ codes "/apps" | some p ↦ p ]))

  unfoldable pub complete_sign_in : Exec (Unit {0})
  unfolding open_steps key_steps verify_steps enter_steps
  complete_sign_in = do
    opened ← open_steps
    located ← key_steps opened
    verified ← verify_steps opened located
    enter_steps opened located verified
