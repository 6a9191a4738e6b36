-- ===== src/Onchain/Call.antt =====
-- web/lib/onchain.ts: `signCall`, `signGroupCall`, `sendGroupCall` and `submitGroupCall`; and
-- `signCreateGroup` of web/lib/deploy.ts, which signs through them.
pub mod Laws
pub mod Proof
pub mod Accepted
use signet_platform.Prelude.{
  ℕ, Bool, true, false, Option, none, some, List, [], ◌∷◌, if◌then◌else◌, map,
}
use signet_platform.Prelude.Text.{Str, codes, truthy, to_lower, with_prefix, ◌===◌}
use signet_platform.Types.Account.{User, NetworkConfig}
use signet_platform.Effects.Failure.{
  Answer, external, or_throw, no_signing_session, no_smart_wallet, no_browser_wallet, no_factory,
  wrong_account, no_transport, ok,
}
use signet_platform.Effects.Stages.{signing, submitting}
use signet_platform.Effects.World.{
  called, wallet_request, sent_transaction, Exec, ◌>>=◌, ◌>>◌, pure, raise, lift, await,
}
use signet_platform.Effects.Host.{Host}
use signet_platform.Effects.Wallet.{Wallet}
use signet_platform.SessionKey.{Codec, SigningSession, load_signing_session}
use signet_platform.UserOp.Wire.{SignedUserOp}
use signet_platform.UserOp.Build.{Sdk, BuildRequest, build_signed_user_op, stage}
use signet_platform.Abi.{GroupFunction}
use signet_platform.Signet.Siwe.{first_account}
use signet_platform.Onchain.Transport.{Transport, userop, wallet, nothing}
use signet_platform.Onchain.Receipt.{wait_for_receipt}

-- Either proof, never both.
pub data OnchainProof : Type 0 where
  user_op : SignedUserOp → OnchainProof
  transaction_hash : Str → OnchainProof

pub record IssuerEntry : Type 0 where
  pub issuer : Str
  pub client_ids : List Str

-- viem's `encodeFunctionData` at the two ABIs. The arguments of a group call are of any type.
pub record Viem : Type 1 where
  pub Args : Type 0
  pub encode_group : GroupFunction → Args → Answer Str
  pub encode_create : List Str → ℕ → ℕ → List IssuerEntry → List Str → Answer Str

pub record SignCallRequest : Type 0 where
  pub network : NetworkConfig
  pub user : User
  pub dest : Str
  pub call_data : Str
  pub sponsored : Option Bool

-- What the functions below use of the tab's surroundings; `use_paymaster` is the build's setting.
pub record Console : Type 1 where
  pub sdk : Sdk
  pub viem : Viem
  pub host : Host
  pub json : Codec
  pub provider : Option Wallet
  pub use_paymaster : Bool

pub record DeployRequest : Type 0 where
  pub network : NetworkConfig
  pub user : User
  pub nodes : List Str
  pub threshold : ℕ
  pub removal_delay_seconds : ℕ
  pub issuers : List IssuerEntry
  pub auth_keys : List Str
  pub sponsored : Option Bool

module _ (c : Console) where
  open c use {sdk, viem, host, json, provider, use_paymaster}
  open viem use {Args, encode_group, encode_create}

  abbrev pub build_request : SignCallRequest → SigningSession → Str → BuildRequest
  build_request req session sender = record {
    network = req.network;
    session = session;
    sender = sender;
    dest = req.dest;
    call_data = req.call_data;
    sponsored = req.sponsored;
  }

  unfoldable pub sign_call : SignCallRequest → Exec SignedUserOp
  sign_call req = do
    found ← load_signing_session json
    session ← lift (or_throw no_signing_session found)
    sender ← lift (or_throw no_smart_wallet (truthy req.user.smart_account_address))
    build_signed_user_op sdk host use_paymaster (build_request req session sender)

  pub record GroupCall : Type 0 where
    pub network : NetworkConfig
    pub user : User
    pub group_address : Option Str
    pub function_name : GroupFunction
    pub args : Args
    pub sponsored : Option Bool

  -- The call data, by viem.
  encode : GroupFunction → Args → Exec Str
  encode f args = do
    await (called (codes "encodeFunctionData"))
    lift (external (encode_group f args))

  unfoldable pub sign_group_call : GroupCall → Exec (Option SignedUserOp)
  unfolding encode
  sign_group_call g = elim (truthy g.group_address) [
    | none ↦ pure none
    | some address ↦ (do
      data_text ← encode g.function_name g.args
      op ← sign_call (record {
        network = g.network;
        user = g.user;
        dest = address;
        call_data = data_text;
        sponsored = g.sponsored;
      })
      pure (some op))
  ]

  -- The wallet's active account, if it is the one that manages the group.
  active_account : Option (List Str) → Str → Exec (Unit {0})
  active_account accounts from = elim (truthy (first_account accounts)) [
    | none ↦ raise (wrong_account (first_account accounts) from)
    | some active ↦
        if to_lower active === to_lower from
        then pure tt
        else raise (wrong_account (some active) from)
  ]

  -- From the provider's first request on.
  send_by : Wallet → Str → Str → Str → Exec Str
  unfolding active_account
  send_by w from group data_text = do
    trace ← λ v. (ok v.trace, v)
    await (wallet_request (codes "eth_requestAccounts"))
    accounts ← lift (external (w.accounts trace))
    active_account accounts from
    stage signing
    await (sent_transaction from group data_text)
    hash ← lift (external (w.send from group data_text))
    stage submitting
    wait_for_receipt provider hash
    pure hash

  unfoldable pub send_group_call : Str → Str → GroupFunction → Args → Exec Str
  unfolding encode send_by
  send_group_call from group f args = elim provider [
    | none ↦ raise no_browser_wallet
    | some w ↦ (do data_text ← encode f args; send_by w from group data_text)
  ]

  -- `userOp ? { user_op: userOp } : undefined`
  as_proof : Option SignedUserOp → Option OnchainProof
  as_proof none = none
  as_proof (some op) = some (user_op op)

  submit_by : Transport → GroupCall → Str → Exec (Option OnchainProof)
  unfolding as_proof
  submit_by (nothing reason) g group = raise (no_transport reason)
  submit_by (wallet from) g group = do
    hash ← send_group_call from group g.function_name g.args
    pure (some (transaction_hash hash))
  submit_by (userop from) g group = do op ← sign_group_call g; pure (as_proof op)

  unfoldable pub submit_group_call : Transport → GroupCall → Exec (Option OnchainProof)
  unfolding submit_by
  submit_group_call transport g = elim (truthy g.group_address) [
    | none ↦ pure none
    | some group ↦ submit_by transport g group
  ]

  -- web/lib/deploy.ts
  unfoldable pub sign_create_group : DeployRequest → Exec SignedUserOp
  sign_create_group r = elim (truthy (some r.network.factory_address)) [
    | none ↦ raise no_factory
    | some factory ↦ (do
      await (called (codes "encodeFunctionData"))
      data_text ← lift (
          external (
            encode_create r.nodes r.threshold r.removal_delay_seconds r.issuers
              (map with_prefix r.auth_keys)))
      sign_call (record {
        network = r.network;
        user = r.user;
        dest = factory;
        call_data = data_text;
        sponsored = r.sponsored;
      }))
  ]
