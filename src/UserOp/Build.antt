-- ===== src/UserOp/Build.antt =====
-- web/lib/userop.ts: `buildSignedUserOp`. The SDK, its bundler client and the RPC endpoint are
-- parameters.
pub mod Order
use signet_platform.Prelude.{
  ℕ, Bool, true, false, Option, none, some, List, [], ◌∷◌, ◌++◌, ◌&&◌, if◌then◌else◌,
}
use signet_platform.Prelude.Text.{Str, codes, with_prefix, is_empty}
use signet_platform.Types.Account.{NetworkConfig}
use signet_platform.Effects.Failure.{
  Result, ok, err, Answer, external, no_entrypoint, no_account_factory,
}
use signet_platform.Effects.Stages.{
  UserOpStage, building, sponsoring_stub, estimating, sponsoring, signing, userop,
}
use signet_platform.Effects.World.{
  Event, deploy_stage, called, Exec, ◌>>=◌, ◌>>◌, pure, raise, lift, emit, await,
}
use signet_platform.Effects.Host.{Host}
use signet_platform.SessionKey.{SigningSession}
use signet_platform.Signet.{SignRequest, SignOptions, sign_with_bootstrap_group}
use signet_platform.UserOp.Wire.{PackedUserOp, SignedUserOp, pack_pair, serialize}

-- The estimate, each value as the number that `BigInt` makes of it.
pub record GasEstimate : Type 0 where
  pub verification_gas_limit : ℕ
  pub call_gas_limit : ℕ
  pub pre_verification_gas : ℕ

-- The functions of `@oleary-labs/signet-sdk` that the module calls. The paymaster's answers are of
-- a type of the SDK.
pub record Sdk : Type 1 where
  pub Sponsorship : Type 0
  pub fetch_nonce : Str → Str → Str → Answer ℕ
  pub build_init_code : Str → Str → Str → Str → Str → Answer Str
  pub build_user_op : Str → ℕ → Str → Str → Str → PackedUserOp
  pub paymaster_stub_data : Str → ℕ → PackedUserOp → Answer Sponsorship
  pub paymaster_data : Str → ℕ → PackedUserOp → Answer Sponsorship
  pub apply_sponsorship : PackedUserOp → Sponsorship → PackedUserOp
  pub estimate_gas : Str → PackedUserOp → Answer GasEstimate
  pub user_op_hash : PackedUserOp → Str → ℕ → Str
  pub sign_request : SignRequest

pub record BuildRequest : Type 0 where
  pub network : NetworkConfig
  pub session : SigningSession
  pub sender : Str
  pub dest : Str
  pub call_data : Str
  pub sponsored : Option Bool

abbrev pub stage : UserOpStage → Exec (Unit {0})
stage s = emit (deploy_stage (userop s))

-- `op.accountGasLimits` and `op.preVerificationGas` from the estimate
unfoldable pub with_gas : PackedUserOp → GasEstimate → PackedUserOp
with_gas op gas = record op {
  account_gas_limits = pack_pair gas.verification_gas_limit gas.call_gas_limit;
  pre_verification_gas = gas.pre_verification_gas;
}

-- `NEXT_PUBLIC_USE_PAYMASTER === "true" && (req.sponsored ?? true)`
abbrev pub uses_paymaster : Bool → BuildRequest → Bool
uses_paymaster enabled req = enabled && elim req.sponsored [ none ↦ true | some s ↦ s ]

module _ (sdk : Sdk) (host : Host) where
  open sdk use {
    fetch_nonce, build_init_code, build_user_op, paymaster_stub_data, paymaster_data,
    apply_sponsorship, estimate_gas, user_op_hash, sign_request,
  }

  -- The operation before the estimate, with the paymaster's stub if one pays.
  unfoldable pub stub_step : Bool → BuildRequest → PackedUserOp → Exec PackedUserOp
  stub_step false req op = pure op
  stub_step true req op = do
    stage sponsoring_stub
    await (called (codes "getPaymasterStubData"))
    stub ←
        lift (external (paymaster_stub_data req.network.entrypoint_address req.network.chain_id op))
    pure (apply_sponsorship op stub)

  unfoldable pub estimate_step : BuildRequest → PackedUserOp → Exec PackedUserOp
  unfolding with_gas
  estimate_step req op = do
    stage estimating
    await (called (codes "estimateUserOpGas"))
    gas ← lift (external (estimate_gas req.network.entrypoint_address op))
    pure (with_gas op gas)

  unfoldable pub sponsor_step : Bool → BuildRequest → PackedUserOp → Exec PackedUserOp
  sponsor_step false req op = pure op
  sponsor_step true req op = do
    stage sponsoring
    await (called (codes "getPaymasterData"))
    real ← lift (external (paymaster_data req.network.entrypoint_address req.network.chain_id op))
    pure (apply_sponsorship op real)

  -- The arguments of `signWithBootstrapGroup`.
  abbrev pub sign_options : BuildRequest → PackedUserOp → SignOptions
  sign_options req op = record {
    network = req.network;
    session_keypair = req.session.keypair;
    claims = req.session.claims;
    digest_hex = user_op_hash op req.network.entrypoint_address req.network.chain_id;
    identity = req.session.identity;
    node_url = req.session.node_url;
  }

  unfoldable pub sign_step : BuildRequest → PackedUserOp → Exec SignedUserOp
  sign_step req op = do
    stage signing
    signature ← sign_with_bootstrap_group host sign_request (sign_options req op)
    lift (serialize (record op { signature = signature }))

  unfoldable pub draft_step : BuildRequest → Exec PackedUserOp
  draft_step req = do
    stage building
    await (called (codes "fetchNonce"))
    nonce ←
        lift (external (fetch_nonce req.network.rpc_url req.network.entrypoint_address req.sender))
    await (called (codes "buildInitCode"))
    init_code ← lift (
        external (
          build_init_code req.network.rpc_url req.network.account_factory_address
            req.network.entrypoint_address req.sender (with_prefix req.session.group_public_key)))
    pure (build_user_op req.sender nonce init_code req.dest req.call_data)

  -- `paymaster` is whether the operation is sponsored.
  unfoldable pub build_steps : Bool → BuildRequest → Exec SignedUserOp
  build_steps paymaster req = do
    draft ← draft_step req
    stubbed ← stub_step paymaster req draft
    estimated ← estimate_step req stubbed
    paid ← sponsor_step paymaster req estimated
    sign_step req paid

  unfoldable pub build_signed_user_op : Bool → BuildRequest → Exec SignedUserOp
  build_signed_user_op enabled req =
      if is_empty req.network.entrypoint_address
      then raise no_entrypoint
      else if is_empty req.network.account_factory_address
      then raise no_account_factory
      else build_steps (uses_paymaster enabled req) req
