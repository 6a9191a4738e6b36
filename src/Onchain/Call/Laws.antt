-- ===== src/Onchain/Call/Laws.antt =====
-- web/lib/onchain.ts: what a group call that returned has done, by either route.
use signet_platform.Prelude.{
  ◌+◌, ◌≡◌, ap, subst, ◌∙◌, Option, none, some, List, [], ◌∷◌, ◌++◌, Bool-cases, Option-cases, inl,
  inr,
}
use signet_platform.Prelude.Text.{Str, codes, truthy, to_lower, ◌===◌, eq_sound}
use signet_platform.Effects.Failure.{
  Failure, Result, ok, err, returned, or_throw, no_smart_wallet, no_signing_session,
}
use signet_platform.Effects.World.{
  World, Event, called, wallet_request, sent_transaction, deploy_stage, Exec, lift, pure, ◌>>=◌,
}
use signet_platform.Effects.Stages.{userop, signing, submitting}
use signet_platform.Effects.Laws.{>>=-eq-ok, Answer-cases}
use signet_platform.Effects.Wallet.{Wallet}
use signet_platform.SessionKey.{SigningSession, load_signing_session}
use signet_platform.SessionKey.Expiry.{load_unchanged}
use signet_platform.UserOp.Wire.{SignedUserOp}
use signet_platform.UserOp.Build.{BuildRequest, build_signed_user_op, uses_paymaster}
use signet_platform.UserOp.Build.Order.{IsBuilt, build_signed_user_op-IsBuilt}
use signet_platform.Abi.{GroupFunction}
use signet_platform.Signet.Siwe.{first_account}
use signet_platform.Onchain.Receipt.{wait_for_mined, wait_for_receipt, patience_ms}
use signet_platform.Onchain.Receipt.Laws.{HasReceipt, IsWait, wait_for_mined-IsWait}
use signet_platform.Onchain.Call.{
  Console, SignCallRequest, build_request, sign_call, active_account, send_by, send_group_call,
  encode,
}

module _ (c : Console) where
  -- The build of a call's target and data, with this session and from this wallet.
  abbrev pub build_of : SignCallRequest → SigningSession → Str → BuildRequest
  build_of req session sender = record {
    network = req.network;
    session = session;
    sender = sender;
    dest = req.dest;
    call_data = req.call_data;
    sponsored = req.sponsored;
  }

  -- A call that was signed: with a session of the tab that has not expired, from the user's smart
  -- wallet, by a build that went through.
  abbrev pub IsSigned : SignCallRequest → World → World → SignedUserOp → Type 0
  IsSigned req w w' u =
      (s : SigningSession) × (sender : Str) × (load_signing_session c.json w ≡ (ok (some s), w))
      × (truthy req.user.smart_account_address ≡ some sender)
      × IsBuilt c.sdk c.host (build_of req s sender)
          (uses_paymaster c.use_paymaster (build_of req s sender)) w w' u

  -- From the session on.
  abbrev sign_from : SignCallRequest → SigningSession → Exec SignedUserOp
  sign_from req s = do
    sender ← lift (or_throw no_smart_wallet (truthy req.user.smart_account_address))
    build_signed_user_op c.sdk c.host c.use_paymaster (build_request c req s sender)

  sign_from_ok :
      (req : SignCallRequest) (s : SigningSession) (w v w' : World) (u : SignedUserOp)
      → load_signing_session c.json w ≡ (ok (some s), v)
      → sign_from req s v ≡ (ok u, w')
      → IsSigned req w w' u
  sign_from_ok req s w v w' u loaded e =
      elim (Option-cases (truthy req.user.smart_account_address)) [
        | inl missing ↦ absurd (clash (simp missing at e))
        | inr (sender, there) ↦ (
          s,
          sender,
          subst (λ t. load_signing_session c.json w ≡ (ok (some s), t)) same loaded,
          there,
          build_signed_user_op-IsBuilt c.sdk c.host (build_request c req s sender) c.use_paymaster w
              w' u
              (subst
                (λ t.
                  build_signed_user_op c.sdk c.host c.use_paymaster (build_request c req s sender) t
                  ≡ (ok u, w'))
                same (simp there at e)),
        )
      ]
    where
      same : v ≡ w
      same = load_unchanged c.json w v s loaded

      clash :
          {f : Failure} {t : World}
          → ◌≡◌ {A = Result SignedUserOp × World} (err f, t) (ok u, w')
          → ⊥
      clash x = cc x

  sign_found :
      (req : SignCallRequest) (found : Option SigningSession) (w v w' : World) (u : SignedUserOp)
      → load_signing_session c.json w ≡ (ok found, v)
      → (lift (or_throw no_signing_session found) >>= sign_from req) v ≡ (ok u, w')
      → IsSigned req w w' u
  sign_found req none w v w' u loaded e = cc e
  sign_found req (some s) w v w' u loaded e = sign_from_ok req s w v w' u loaded e

  -- A call is signed only with a session of the tab that has not expired and from the user's smart
  -- wallet, and then by a build that made its calls in order.
  pub sign_call-IsSigned :
      (req : SignCallRequest) (w w' : World) (u : SignedUserOp)
      → sign_call c req w ≡ (ok u, w')
      → IsSigned req w w' u
  unfolding sign_call
  sign_call-IsSigned req w w' u e =
      let (found, v, loaded, rest) = >>=-eq-ok (load_signing_session c.json) _ w u w' e in
      sign_found req found w v w' u loaded rest

  -- The accounts are asked for after the call is encoded.
  abbrev asked : World → List Event
  asked v = v.trace ++ called (codes "encodeFunctionData") ∷ []

  -- The calls until the wait for the receipt: the transaction is sent before it.
  abbrev pub sent : World → Str → Str → Str → List Event
  sent v from group data_text =
      (((asked v ++ wallet_request (codes "eth_requestAccounts") ∷ [])
          ++ deploy_stage (userop signing) ∷ [])
        ++ sent_transaction from group data_text ∷ [])
      ++ deploy_stage (userop submitting) ∷ []

  -- A transaction that was sent and then mined, for the sender, the group and the call of its
  -- request.
  abbrev pub IsSent : Wallet → Str → Str → GroupFunction → c.viem.Args → World → Str → Type 0
  IsSent w from group f args v hash =
      (data_text : Str) × (accounts : Option (List Str)) × (active : Str) × (c.viem.encode_group f
          args
        ≡ returned data_text)
      × (w.accounts (v.trace ++ called (codes "encodeFunctionData") ∷ []) ≡ returned accounts)
      × (truthy (first_account accounts) ≡ some active)
      × (to_lower active ≡ to_lower from)
      × (w.send from group data_text ≡ returned hash)
      × HasReceipt w hash (sent v from group data_text) (ok tt)

  mined :
      (w : Wallet) (h hash : Str) (t v' : World)
      → ((wait_for_mined w h >>= λ _. pure h) t) ≡ (ok hash, v')
      → (h ≡ hash) × HasReceipt w h t.trace (ok tt)
  mined w h hash t v' e =
      let (done, u, p, q) = >>=-eq-ok (wait_for_mined w h) (λ _. pure h) t hash v' e in
      (
        cc q,
        subst
            (λ (r : Result (Unit {0})).
              IsWait w h t.trace (t.now + patience_ms) r (wait_for_mined w h t).1)
            (ap (λ (r : Result (Unit {0}) × World). r.0) p) (wait_for_mined-IsWait w h t),
      )

  -- A transaction is sent only from the wallet's active account, if that is the sender that was
  -- chosen, and its hash is returned only when the wallet, after the sending, has shown a receipt
  -- that did not revert.
  pub send_group_call-IsSent :
      (w : Wallet) (from group : Str) (f : GroupFunction) (args : c.viem.Args) (v v' : World)
      (hash : Str)
      → c.provider ≡ some w
      → send_group_call c from group f args v ≡ (ok hash, v')
      → IsSent w from group f args v hash
  unfolding send_group_call encode send_by active_account wait_for_receipt
  send_group_call-IsSent w from group f args v v' hash prov e =
      elim (Answer-cases (c.viem.encode_group f args)) [
        | inl (m, a) ↦ absurd (clash (simp (prov, a, send_group_call, active_account) at e))
        | inr (data_text, a) ↦ elim (Answer-cases (w.accounts (asked v))) [
          | inl (m, b) ↦ absurd (clash (simp (prov, a, b, send_group_call, active_account) at e))
          | inr (accounts, b) ↦ elim (Option-cases (truthy (first_account accounts))) [
            | inl d ↦ absurd (clash (simp (prov, a, b, d, send_group_call, active_account) at e))
            | inr (active, d) ↦ elim (Bool-cases (to_lower active === to_lower from)) [
              | inr other ↦
                  absurd (clash (simp (prov, a, b, d, other, send_group_call, active_account) at e))
              | inl same ↦ elim (Answer-cases (w.send from group data_text)) [
                | inl (m, g) ↦
                    absurd
                      (clash (simp (prov, a, b, d, same, g, send_group_call, active_account) at e))
                | inr (h, g) ↦
                    let (eq, receipt) =
                      mined w h hash _ v'
                        (simp (prov, a, b, d, same, g, send_group_call, active_account) at e) in
                    (
                      data_text,
                      accounts,
                      active,
                      a,
                      b,
                      d,
                      eq_sound _ _ same,
                      g ∙ ap returned eq,
                      subst (λ t. HasReceipt w t (sent v from group data_text) (ok tt)) eq receipt,
                    )
              ]
            ]
          ]
        ]
      ]
    where
      clash : {x : Failure} {t : World} → ◌≡◌ {A = Result Str × World} (err x, t) (ok hash, v') → ⊥
      clash x = cc x
