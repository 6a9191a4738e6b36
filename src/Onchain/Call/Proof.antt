-- ===== src/Onchain/Call/Proof.antt =====
-- web/lib/onchain.ts: which proof `submitGroupCall` returns for each transport.
use signet_platform.Prelude.{
  ◌≡◌, ap, sym, subst, ◌∙◌, false, Option, none, some, List, [], ◌∷◌, ◌++◌, Option-cases, inl, inr,
}
use signet_platform.Prelude.Text.{Str, codes, truthy, to_lower, ◌===◌}
use signet_platform.Effects.Failure.{Failure, Result, ok, err, returned, wrong_account}
use signet_platform.Effects.World.{World, called, wallet_request, pure, await}
use signet_platform.Effects.Laws.{>>=-eq-ok, Answer-cases}
use signet_platform.Effects.Wallet.{Wallet}
use signet_platform.UserOp.Wire.{SignedUserOp}
use signet_platform.Abi.{GroupFunction}
use signet_platform.Signet.Siwe.{first_account}
use signet_platform.Onchain.Transport.{Transport, userop, wallet, nothing}
use signet_platform.Onchain.Call.{
  Console, SignCallRequest, GroupCall, OnchainProof, user_op, transaction_hash, sign_call,
  sign_group_call, active_account, send_by, send_group_call, submit_by, submit_group_call, encode,
  as_proof,
}
use signet_platform.Onchain.Call.Laws.{IsSigned, sign_call-IsSigned, IsSent, send_group_call-IsSent}

-- The tab once viem has encoded a call.
abbrev pub encoded : World → World
encoded v = (await (called (codes "encodeFunctionData")) v).1

module _ (c : Console) where
  -- If the wallet's active account is not the manager's, the call fails with an error that names
  -- both, and the wallet has been asked for its accounts and for nothing else.
  pub send_group_call-wrong_account :
      (w : Wallet) (from group data_text active : Str) (f : GroupFunction) (args : c.viem.Args)
      (accounts : Option (List Str)) (v : World)
      → c.provider ≡ some w
      → c.viem.encode_group f args ≡ returned data_text
      → w.accounts (v.trace ++ called (codes "encodeFunctionData") ∷ []) ≡ returned accounts
      → truthy (first_account accounts) ≡ some active
      → to_lower active === to_lower from ≡ false
      → ((send_group_call c from group f args v).0 ≡ err (wrong_account (some active) from))
        × ((send_group_call c from group f args v).1.trace
            ≡ (v.trace ++ called (codes "encodeFunctionData") ∷ [])
              ++ wallet_request (codes "eth_requestAccounts") ∷ [])
  unfolding send_group_call encode send_by active_account
  send_group_call-wrong_account w from group data_text active f args accounts v prov a b d other = (
    simp (prov, a, b, d, other, send_group_call, active_account),
    simp (prov, a, b, d, other, send_group_call, active_account),
  )

  -- The request that a group call makes of `signCall`, for the group's address.
  abbrev pub group_request : GroupCall c → Str → Str → SignCallRequest
  group_request g group data_text = record {
    network = g.network;
    user = g.user;
    dest = group;
    call_data = data_text;
    sponsored = g.sponsored;
  }

  -- What a returned proof stands for, by the group's address and the transport.
  abbrev pub IsProof :
      Option Str → Transport → GroupCall c → World → World → Option OnchainProof → Type 0
  IsProof none transport g v v' p = (p ≡ none) × (v' ≡ v)
  IsProof (some group) (nothing reason) g v v' p = ⊥
  IsProof (some group) (wallet from) g v v' p =
      (w : Wallet) × (hash : Str) × (c.provider ≡ some w)
      × (p ≡ some (transaction_hash hash))
      × IsSent c w from group g.function_name g.args v hash
  IsProof (some group) (userop from) g v v' p =
      (op : SignedUserOp) × (data_text : Str) × (c.viem.encode_group g.function_name g.args
        ≡ returned data_text)
      × (p ≡ some (user_op op))
      × IsSigned c (group_request g group data_text) (encoded v) v' op

  submit_by-wallet :
      (from group : Str) (g : GroupCall c) (v v' : World) (p : Option OnchainProof)
      → submit_by c (wallet from) g group v ≡ (ok p, v')
      → IsProof (some group) (wallet from) g v v' p
  unfolding submit_by send_group_call
  submit_by-wallet from group g v v' p e =
      let (hash, u, sent, rest) =
        >>=-eq-ok (send_group_call c from group g.function_name g.args)
          (λ hash. pure (some (transaction_hash hash))) v p v' e in
      elim (Option-cases c.provider) [
        | inl absent ↦ absurd (no_provider absent sent)
        | inr (w, prov) ↦ (
          w,
          hash,
          prov,
          cc rest,
          send_group_call-IsSent c w from group g.function_name g.args v u hash prov sent,
        )
      ]
    where
      no_provider :
          {hash : Str} {u : World}
          → c.provider ≡ none
          → send_group_call c from group g.function_name g.args v ≡ (ok hash, u)
          → ⊥
      no_provider absent sent = cc (simp (absent, send_group_call) at sent)

  sign_group_call-IsSigned :
      (group : Str) (g : GroupCall c) (v v' : World) (found : Option SignedUserOp)
      → truthy g.group_address ≡ some group
      → sign_group_call c g v ≡ (ok found, v')
      → (op : SignedUserOp) × (data_text : Str) × (c.viem.encode_group g.function_name g.args
          ≡ returned data_text)
        × (found ≡ some op)
        × IsSigned c (group_request g group data_text) (encoded v) v' op
  unfolding sign_group_call encode
  sign_group_call-IsSigned group g v v' found there e =
      elim (Answer-cases (c.viem.encode_group g.function_name g.args)) [
        | inl (m, a) ↦ absurd (clash (simp (there, a, sign_group_call) at e))
        | inr (data_text, a) ↦
            let (op, t, signed, rest) =
              >>=-eq-ok (sign_call c (group_request g group data_text)) (λ op. pure (some op))
                (encoded v) found v' (simp (there, a, sign_group_call) at e) in
            (
              op,
              data_text,
              a,
              cc rest,
              sign_call-IsSigned c (group_request g group data_text) (encoded v) v' op
                  (signed ∙ ap (λ (r : Result (Option SignedUserOp) × World). (ok op, r.1)) rest),
            )
      ]
    where
      clash :
          {x : Failure} {t : World}
          → ◌≡◌ {A = Result (Option SignedUserOp) × World} (err x, t) (ok found, v')
          → ⊥
      clash x = cc x

  submit_by-userop :
      (from group : Str) (g : GroupCall c) (v v' : World) (p : Option OnchainProof)
      → truthy g.group_address ≡ some group
      → submit_by c (userop from) g group v ≡ (ok p, v')
      → IsProof (some group) (userop from) g v v' p
  unfolding submit_by as_proof
  submit_by-userop from group g v v' p there e =
      let (found, u, signed, rest) =
        >>=-eq-ok (sign_group_call c g) (λ op. pure (as_proof c op)) v p v' e in
      let (op, data_text, a, is_some, done) =
        sign_group_call-IsSigned group g v u found there signed in
      (
        op,
        data_text,
        a,
        sym (ap (λ (r : Result (Option OnchainProof) × World). proof_of r.0) rest)
            ∙ ap (as_proof c) is_some,
        subst (λ y. IsSigned c (group_request g group data_text) (encoded v) y op)
            (ap (λ (r : Result (Option OnchainProof) × World). r.1) rest) done,
      )
    where
      proof_of : Result (Option OnchainProof) → Option OnchainProof
      proof_of (ok q) = q
      proof_of (err x) = none

  submit_by-IsProof :
      (transport : Transport) (group : Str) (g : GroupCall c) (v v' : World)
      (p : Option OnchainProof)
      → truthy g.group_address ≡ some group
      → submit_by c transport g group v ≡ (ok p, v')
      → IsProof (some group) transport g v v' p
  unfolding submit_by
  submit_by-IsProof (nothing reason) group g v v' p there e = cc e
  submit_by-IsProof (wallet from) group g v v' p there e = submit_by-wallet from group g v v' p e
  submit_by-IsProof (userop from) group g v v' p there e =
      submit_by-userop from group g v v' p there e

  -- A group call that returns gives the proof of the chosen transport: nothing for an app with no
  -- group, with no effect at all; the hash of a transaction that was sent to the group, for the
  -- call, from the account of the transport, which is the wallet's active one, and then mined; or
  -- an operation that calls the group with the data of the call, signed with an unexpired session
  -- of the tab. Without a transport, for an app with a group, it never returns.
  pub submit_group_call-IsProof :
      (transport : Transport) (g : GroupCall c) (v v' : World) (p : Option OnchainProof)
      → submit_group_call c transport g v ≡ (ok p, v')
      → IsProof (truthy g.group_address) transport g v v' p
  unfolding submit_group_call
  submit_group_call-IsProof transport g v v' p e = elim (Option-cases (truthy g.group_address)) [
    | inl absent ↦ by_group none absent (no_group (simp (absent, submit_group_call) at e))
    | inr (group, there) ↦
        by_group (some group) there
          (submit_by-IsProof transport group g v v' p there (simp (there, submit_group_call) at e))
  ]
    where
      by_group :
          (o : Option Str)
          → truthy g.group_address ≡ o
          → IsProof o transport g v v' p
          → IsProof (truthy g.group_address) transport g v v' p
      by_group o q h = subst (λ o'. IsProof o' transport g v v' p) (sym q) h

      no_group :
          ◌≡◌ {A = Result (Option OnchainProof) × World} (ok none, v) (ok p, v')
          → (p ≡ none) × (v' ≡ v)
      no_group x = (cc x, cc x)
