-- ===== src/Provision/Steps.antt =====
-- web/lib/provision.ts: `provisionSignetKey` up to the key, and what follows it; and
-- web/lib/signet.ts: `counterfactualAccount`.
use signet_platform.Prelude.{◌||◌, Option, none, some, length, ◌==◌, if◌then◌else◌}
use signet_platform.Prelude.Text.{Str, codes, ◌===◌, is_empty, with_prefix}
use signet_platform.Prelude.Space.{trim}
use signet_platform.Types.Account.{User, NetworkConfig, NodeCertificate, signet, siwe}
use signet_platform.Effects.Failure.{
  external, no_bootstrap_group, certificate_refused, no_public_key, restore_needs_sign_in,
}
use signet_platform.Effects.Json.{str, obj, end, field}
use signet_platform.Effects.Stages.{
  ProvisionStage, session, certificate, authenticating, keygen, wallet, recording, done,
}
use signet_platform.Effects.World.{
  Exec, ◌>>=◌, ◌>>◌, pure, raise, lift, emit, await, try_catch, called, provision_stage,
}
use signet_platform.Effects.Host.{Host, is_ok, fetch}
use signet_platform.Api.{request}
use signet_platform.SessionKey.{SessionKeypair, Codec, store_signing_session}
use signet_platform.Provision.Requests.{
  GeneratedKey, Provider, ProvisionResult, auth_fetch, key_json, keygen_request, result_of,
  session_of,
}

abbrev pub at : ProvisionStage → Exec (Unit {0})
at s = emit (provision_stage s)

module _ (host : Host) (provider : Provider) where
  read_account : NetworkConfig → Str → Exec (Option Str)
  read_account network key = do
    await (called (codes "readContract"))
    address ← lift (
        external (
          provider.account_of network.rpc_url network.account_factory_address
            network.entrypoint_address (with_prefix key)))
    pure (some address)

  unfoldable pub counterfactual_account : NetworkConfig → Str → Exec (Option Str)
  unfolding read_account ◌===◌
  counterfactual_account network key =
      if is_empty network.account_factory_address || network.account_factory_address === codes "0x"
      then pure none
      else try_catch (read_account network key) (pure none)

  unfoldable pub certify : SessionKeypair → Exec NodeCertificate
  certify keypair = do
    at certificate
    answer ←
        request host (codes "POST") (codes "/v1/auth/node-certificate")
          (some (obj (field (codes "session_pub") (str keypair.public_key_hex) end)))
    pure (provider.as_certificate answer)

  unfoldable pub authenticate : SessionKeypair → NodeCertificate → Exec (Unit {0})
  unfolding auth_fetch trim
  authenticate keypair cert = do
    at authenticating
    res ← fetch host (auth_fetch host cert keypair.public_key_hex)
    if is_ok res then pure tt else raise (certificate_refused (trim res.text))

  unfoldable pub generate : SessionKeypair → NodeCertificate → Exec GeneratedKey
  unfolding keygen_request
  generate keypair cert = do
    at keygen
    await (called (codes "keygen"))
    key ← lift (external (provider.keygen (keygen_request host cert keypair)))
    if is_empty key.group_public_key then raise no_public_key else pure key

  -- Up to the key: nothing is stored or recorded before it is there.
  unfoldable pub keygen_steps : Exec (SessionKeypair × NodeCertificate × GeneratedKey)
  unfolding certify authenticate generate
  keygen_steps = do
    at session
    await (called (codes "generateSessionKeypair"))
    keypair ← lift (external provider.new_keypair)
    cert ← certify keypair
    authenticate keypair cert
    key ← generate keypair cert
    pure (keypair, cert, key)

  unfoldable pub finish_steps :
      Codec → NetworkConfig → SessionKeypair × NodeCertificate × GeneratedKey → Exec ProvisionResult
  unfolding counterfactual_account key_json store_signing_session
  finish_steps json network (keypair, cert, key) = do
    at wallet
    account ← counterfactual_account network key.group_public_key
    store_signing_session json (session_of keypair cert key)
    at recording
    request host (codes "PUT") (codes "/v1/me/signet-key") (some (key_json key account))
    at done
    pure (result_of key account)

  unfoldable pub provision_signet_key : Codec → NetworkConfig → Exec ProvisionResult
  unfolding keygen_steps finish_steps
  provision_signet_key json network =
      if is_empty network.bootstrap_group || length network.bootstrap_nodes == 0
      then raise no_bootstrap_group
      else keygen_steps >>= finish_steps json network

  unfoldable pub restore_signing_session : Codec → NetworkConfig → User → Exec ProvisionResult
  unfolding provision_signet_key
  restore_signing_session json network user = elim user.subject_kind [
    | siwe ↦ provision_signet_key json network
    | signet ↦ raise restore_needs_sign_in
  ]
