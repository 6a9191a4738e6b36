-- ===== src/UserOp/Build/Order.antt =====
-- web/lib/userop.ts: the order of `buildSignedUserOp`, and what it signs.
use mathlib.Core.List.{append_assoc}
use signet_platform.Prelude.{
  ℕ, ◌≡◌, sym, subst, ap, Bool, true, false, List, [], ◌∷◌, ◌++◌, arith, Bool-cases, inl, inr,
}
use signet_platform.Prelude.Text.{Str, codes, is_empty, with_prefix}
use signet_platform.Effects.Failure.{Failure, Result, ok, err, returned}
use signet_platform.Effects.Stages.{
  UserOpStage, building, sponsoring_stub, estimating, sponsoring, signing, userop,
}
use signet_platform.Effects.World.{World, Event, deploy_stage, called, lift}
use signet_platform.Effects.Laws.{>>=-eq-ok, returned_first, pure-eq-ok}
use signet_platform.Effects.Host.{Host}
use signet_platform.Signet.{sign_with_bootstrap_group}
use signet_platform.UserOp.Wire.{PackedUserOp, SignedUserOp, serialize}
use signet_platform.UserOp.Build.{
  Sdk, GasEstimate, BuildRequest, with_gas, sign_options, build_signed_user_op, build_steps,
  draft_step, stub_step, estimate_step, sponsor_step, sign_step, uses_paymaster,
}

abbrev at : UserOpStage → Event
at s = deploy_stage (userop s)

-- The calls and stages up to the signature, with and without a paymaster.
abbrev pub steps_before_signing : Bool → List Event
steps_before_signing true =
    at building
    ∷ called (codes "fetchNonce")
    ∷ called (codes "buildInitCode")
    ∷ at sponsoring_stub
    ∷ called (codes "getPaymasterStubData")
    ∷ at estimating
    ∷ called (codes "estimateUserOpGas")
    ∷ at sponsoring
    ∷ called (codes "getPaymasterData")
    ∷ at signing
    ∷ []
steps_before_signing false =
    at building
    ∷ called (codes "fetchNonce")
    ∷ called (codes "buildInitCode")
    ∷ at estimating
    ∷ called (codes "estimateUserOpGas")
    ∷ at signing
    ∷ []

module _ (sdk : Sdk) (req : BuildRequest) where
  open sdk use {
    Sponsorship, paymaster_stub_data, paymaster_data, apply_sponsorship, estimate_gas, fetch_nonce,
    build_init_code, build_user_op,
  }

  -- `op` is the SDK's operation for the target and the data of the call, from the wallet's address.
  abbrev pub IsDraft : PackedUserOp → Type 0
  IsDraft op =
      (nonce : ℕ) × (init_code : Str) × (fetch_nonce req.network.rpc_url
          req.network.entrypoint_address req.sender
        ≡ returned nonce)
      × (build_init_code req.network.rpc_url req.network.account_factory_address
            req.network.entrypoint_address req.sender (with_prefix req.session.group_public_key)
          ≡ returned init_code)
      × (op ≡ build_user_op req.sender nonce init_code req.dest req.call_data)

  -- `op` is `draft` with the gas that was estimated for it.
  abbrev pub IsEstimated : PackedUserOp → PackedUserOp → Type 0
  IsEstimated draft op =
      (gas : GasEstimate) × (estimate_gas req.network.entrypoint_address draft ≡ returned gas)
      × (op ≡ with_gas draft gas)

  -- `op` carries the sponsorship that the paymaster gave for `draft`.
  abbrev pub IsSponsored : PackedUserOp → PackedUserOp → Type 0
  IsSponsored draft op =
      (real : Sponsorship) × (paymaster_data req.network.entrypoint_address req.network.chain_id
          draft
        ≡ returned real)
      × (op ≡ apply_sponsorship draft real)

  abbrev pub HasStub : PackedUserOp → PackedUserOp → Type 0
  HasStub draft op =
      (stub : Sponsorship) × (paymaster_stub_data req.network.entrypoint_address
          req.network.chain_id draft
        ≡ returned stub)
      × (op ≡ apply_sponsorship draft stub)

  -- How the operation that is signed came about.
  abbrev pub IsFinal : Bool → PackedUserOp → Type 0
  IsFinal false op = (draft : PackedUserOp) × IsDraft draft × IsEstimated draft op
  IsFinal true op =
      (draft : PackedUserOp) × (stubbed : PackedUserOp) × (estimated : PackedUserOp) × IsDraft draft
      × HasStub draft stubbed
      × IsEstimated stubbed estimated
      × IsSponsored estimated op

module _ (sdk : Sdk) (host : Host) (req : BuildRequest) where
  draft_trace :
      (w v : World) (op : PackedUserOp)
      → draft_step sdk host req w ≡ (ok op, v)
      → v.trace
        ≡ ((w.trace ++ at building ∷ []) ++ called (codes "fetchNonce") ∷ [])
          ++ called (codes "buildInitCode") ∷ []
  unfolding draft_step
  draft_trace w v op e = ground arith

  draft_step-IsDraft :
      (w v : World) (op : PackedUserOp)
      → draft_step sdk host req w ≡ (ok op, v)
      → IsDraft sdk req op
  unfolding draft_step
  draft_step-IsDraft w v op e =
      let (nonce, nonce_eq, rest) =
        returned_first
          (sdk.fetch_nonce req.network.rpc_url req.network.entrypoint_address req.sender) _ _ op v
          e in
      let (init_code, code_eq, rest₂) =
        returned_first
          (sdk.build_init_code req.network.rpc_url req.network.account_factory_address
            req.network.entrypoint_address req.sender (with_prefix req.session.group_public_key))
          _ _ op v rest in
      (nonce, init_code, nonce_eq, code_eq, sym (pure-eq-ok _ op _ v rest₂).0)

  stub_ok :
      (w v : World) (draft op : PackedUserOp)
      → stub_step sdk host true req draft w ≡ (ok op, v)
      → HasStub sdk req draft op
        × (v.trace
            ≡ (w.trace ++ at sponsoring_stub ∷ []) ++ called (codes "getPaymasterStubData") ∷ [])
  unfolding stub_step
  stub_ok w v draft op e = ground arith

  estimate_ok :
      (w v : World) (draft op : PackedUserOp)
      → estimate_step sdk host req draft w ≡ (ok op, v)
      → IsEstimated sdk req draft op
        × (v.trace ≡ (w.trace ++ at estimating ∷ []) ++ called (codes "estimateUserOpGas") ∷ [])
  unfolding estimate_step
  estimate_ok w v draft op e = ground arith

  sponsor_ok :
      (w v : World) (draft op : PackedUserOp)
      → sponsor_step sdk host true req draft w ≡ (ok op, v)
      → IsSponsored sdk req draft op
        × (v.trace ≡ (w.trace ++ at sponsoring ∷ []) ++ called (codes "getPaymasterData") ∷ [])
  unfolding sponsor_step
  sponsor_ok w v draft op e = ground arith

  -- The tab when the signature is asked for.
  abbrev signing_world : World → World
  signing_world w = record w { trace = w.trace ++ at signing ∷ [] }

  sign_ok :
      (w v : World) (op : PackedUserOp) (u : SignedUserOp)
      → sign_step sdk host req op w ≡ (ok u, v)
      → (sig : Str) × (sign_with_bootstrap_group host sdk.sign_request
            (sign_options sdk host req op)
            (signing_world w)
          ≡ (ok sig, v))
        × (serialize (record op { signature = sig }) ≡ ok u)
  unfolding sign_step
  sign_ok w v op u e =
      let (sig, x, p, q) =
        >>=-eq-ok (sign_with_bootstrap_group host sdk.sign_request (sign_options sdk host req op))
          (λ s. lift (serialize (record op { signature = s }))) (signing_world w) u v e in
      (
        sig,
        subst
            (λ y.
              sign_with_bootstrap_group host sdk.sign_request (sign_options sdk host req op)
                (signing_world w)
              ≡ (ok sig, y))
            (ap (λ (r : Result SignedUserOp × World). r.1) q) p,
        ap (λ (r : Result SignedUserOp × World). r.0) q,
      )

  -- What a build that returned did, from the tab `w`.
  abbrev pub IsBuilt : Bool → World → World → SignedUserOp → Type 0
  IsBuilt paymaster w w' u =
      (op : PackedUserOp) × (sig : Str) × (v : World) × IsFinal sdk req paymaster op
      × (v.trace ≡ w.trace ++ steps_before_signing paymaster)
      × (sign_with_bootstrap_group host sdk.sign_request (sign_options sdk host req op) v
          ≡ (ok sig, w'))
      × (serialize (record op { signature = sig }) ≡ ok u)

  build_steps_ok :
      (paymaster : Bool) (w w' : World) (u : SignedUserOp)
      → build_steps sdk host paymaster req w ≡ (ok u, w')
      → IsBuilt paymaster w w' u
  unfolding build_steps stub_step sponsor_step
  build_steps_ok false w w' u e =
      let (draft, v₁, p₁, e₁) = >>=-eq-ok (draft_step sdk host req) _ w u w' e in
      let (op, v₂, p₂, e₂) =
        >>=-eq-ok (estimate_step sdk host req draft) (sign_step sdk host req) v₁ u w' e₁ in
      let (sig, s, q) = sign_ok v₂ w' op u e₂ in
      let (estimated, t₂) = estimate_ok v₁ v₂ draft op p₂ in
      (
        op,
        sig,
        signing_world v₂,
        (draft, draft_step-IsDraft w v₁ draft p₁, estimated),
        simp (t₂, draft_trace w v₁ draft p₁, append_assoc),
        s,
        q,
      )
  build_steps_ok true w w' u e =
      let (draft, v₁, p₁, e₁) = >>=-eq-ok (draft_step sdk host req) _ w u w' e in
      let (stubbed, v₂, p₂, e₂) = >>=-eq-ok (stub_step sdk host true req draft) _ v₁ u w' e₁ in
      let (op₃, v₃, p₃, e₃) = >>=-eq-ok (estimate_step sdk host req stubbed) _ v₂ u w' e₂ in
      let (op, v₄, p₄, e₄) = >>=-eq-ok (sponsor_step sdk host true req op₃) _ v₃ u w' e₃ in
      let (sig, s, q) = sign_ok v₄ w' op u e₄ in
      let (stub, t₂) = stub_ok v₁ v₂ draft stubbed p₂ in
      let (estimated, t₃) = estimate_ok v₂ v₃ stubbed op₃ p₃ in
      let (sponsored, t₄) = sponsor_ok v₃ v₄ op₃ op p₄ in
      (
        op,
        sig,
        signing_world v₄,
        (draft, stubbed, op₃, draft_step-IsDraft w v₁ draft p₁, stub, estimated, sponsored),
        simp (t₄, t₃, t₂, draft_trace w v₁ draft p₁, append_assoc),
        s,
        q,
      )

  -- A build that returns has first made, in this order, the calls of its route and reported their
  -- stages: with a paymaster, the stub before the estimate and the sponsorship after it. The
  -- operation began as the SDK's for the target and the data of the request. The group
  -- then signed the hash of the operation that came out, and the result is that operation with the
  -- signature, in its wire form.
  pub build_signed_user_op-IsBuilt :
      (enabled : Bool) (w w' : World) (u : SignedUserOp)
      → build_signed_user_op sdk host enabled req w ≡ (ok u, w')
      → IsBuilt (uses_paymaster enabled req) w w' u
  unfolding build_signed_user_op
  build_signed_user_op-IsBuilt enabled w w' u e =
      elim (Bool-cases (is_empty req.network.entrypoint_address)) [
        | inl missing ↦ absurd (clash (simp missing at e))
        | inr there ↦ elim (Bool-cases (is_empty req.network.account_factory_address)) [
          | inl missing ↦ absurd (clash (simp (there, missing) at e))
          | inr factory ↦
              build_steps_ok (uses_paymaster enabled req) w w' u (simp (there, factory) at e)
        ]
      ]
    where
      clash :
          {f : Failure} {v : World}
          → ◌≡◌ {A = Result SignedUserOp × World} (err f, v) (ok u, w')
          → ⊥
      clash x = cc x
