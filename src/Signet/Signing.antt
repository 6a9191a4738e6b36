-- ===== src/Signet/Signing.antt =====
-- web/lib/signet.ts: what `signWithBootstrapGroup` asks, answers and leaves behind.
use signet_platform.Prelude.{
  ◌≡◌, ◌≢◌, ◌⊎◌, inl, inr, true, false, some, [], ◌∷◌, ◌++◌, arith, Bool-cases, ◌==◌, Option-cases,
  ap, sym, refl,
}
use signet_platform.Prelude.Text.{Str, codes, truthy}
use signet_platform.Prelude.Hex.{hex_to_bytes}
use signet_platform.Effects.Failure.{
  Result, ok, err, session_expired, Failure, returned, external, or_throw, no_bootstrap_nodes,
}
use signet_platform.Effects.Json.{Object, with_members}
use signet_platform.Effects.World.{World, Slot, called, fetched, continue, raise, lift, await, ◌>>◌}
use signet_platform.Effects.Laws.{Answer-cases}
use signet_platform.Effects.Keeps.{Keeps, Keeps-if, Keeps->>=, token}
use signet_platform.Effects.Host.{Host, Response, is_ok, fetch}
use signet_platform.SessionKey.{clear_signing_session}
use signet_platform.SessionKey.Expiry.{Keeps-clear, cleared, clear_lem, cells-clear}
use signet_platform.Signet.{
  SignRequest, SignOptions, chosen_node, sign_fetch, read_signature, read_body,
  sign_with_bootstrap_group,
}

-- The tab's cells after a call: as before, unless the session was found to have expired.
abbrev pub ClearsOnlyExpired : World → Result Str × World → Type 0
ClearsOnlyExpired w out =
    ((out.0 ≡ err session_expired) × ((k : Slot) → out.1.cells k ≡ cleared w.cells k))
    ⊎ ((out.0 ≢ err session_expired) × (out.1.cells ≡ w.cells))

read_body-ne-expired : (host : Host) (text : Str) → read_body host text ≢ err session_expired
unfolding read_body with_members
read_body-ne-expired host text = ground arith

read_signature_clears :
    (host : Host) (node : Str) (res : Response) (w : World)
    → w.readable ≡ true
    → ClearsOnlyExpired w (read_signature host node res w)
unfolding read_signature
read_signature_clears host node res w r = elim (Bool-cases (is_ok res)) [
  | inl good ↦ inr (simp good (read_body-ne-expired host res.text), simp good)
  | inr bad ↦ elim (Bool-cases (res.status == 401)) [
    | inl gone ↦
        inl (
          simp (bad, gone, clear_lem w r),
          λ k. simp (bad, gone, clear_lem w r) (cells-clear w k r),
        )
    | inr other ↦ inr (simp (bad, other) (λ e. cc e), simp (bad, other))
  ]
]

-- In a tab whose storage can be read, signing clears the stored session exactly when it reports an
-- expired session, and otherwise leaves every cell as it was.
pub sign-ClearsOnlyExpired :
    (host : Host) (sdk : SignRequest) (o : SignOptions) (w : World)
    → w.readable ≡ true
    → ClearsOnlyExpired w (sign_with_bootstrap_group host sdk o w)
unfolding sign_with_bootstrap_group
sign-ClearsOnlyExpired host sdk o w r =
    elim (Answer-cases (
      sdk o.session_keypair o.claims o.network.bootstrap_group (hex_to_bytes o.digest_hex)
        o.identity)) [
          | inl (m, e) ↦ inr (simp e (λ x. cc x), simp e)
          | inr (signed, e) ↦ elim (Option-cases (truthy (chosen_node o))) [
            | inl f ↦ inr (simp (e, f) (λ x. cc x), simp (e, f))
            | inr (node, f) ↦
                elim (Answer-cases (
                  host.respond (w.trace ++ called (codes "signSignRequest") ∷ [])
                    (sign_fetch host node signed))) [
                      | inl (m, g) ↦ inr (simp (e, f, g) (λ x. cc x), simp (e, f, g))
                      | inr (res, g) ↦ simp (e, f, g) (read_signature_clears host node res _ r)
                    ]
          ]
        ]

read_signature_refused :
    (host : Host) (node : Str) (res : Response) (w w' : World) (sig : Str)
    → is_ok res ≡ false
    → read_signature host node res w ≡ (ok sig, w')
    → ⊥
unfolding read_signature
read_signature_refused host node res w w' sig bad e = elim (Bool-cases (res.status == 401)) [
  | inl gone ↦
      failed (clear_signing_session w).0 (clear_signing_session w).1 (simp (bad, gone) at e)
  | inr other ↦ cc (simp (bad, other) at e)
]
  where
    failed :
        (r : Result (Unit {0})) (v : World)
        → continue r (λ _. raise session_expired) v ≡ (ok sig, w')
        → ⊥
    failed (ok a) v e = cc e
    failed (err f) v e = cc e

-- When signing returns a signature, the session's own node (or the first configured one, for a
-- session with none) was asked once, through the relay, with the request that the SDK signed for the
-- bootstrap group, and the signature stands in its successful answer.
pub sign-asks_node :
    (host : Host) (sdk : SignRequest) (o : SignOptions) (w w' : World) (sig : Str)
    → sign_with_bootstrap_group host sdk o w ≡ (ok sig, w')
    → (node : Str) × (signed : Object) × (res : Response) × (truthy (chosen_node o) ≡ some node)
      × (sdk o.session_keypair o.claims o.network.bootstrap_group
            (hex_to_bytes o.digest_hex)
            o.identity
          ≡ returned signed)
      × (host.respond
            (w.trace ++ called (codes "signSignRequest") ∷ [])
            (sign_fetch host node signed)
          ≡ returned res)
      × (is_ok res ≡ true)
      × (read_body host res.text ≡ ok sig)
      × (w'.trace
          ≡ (w.trace ++ called (codes "signSignRequest") ∷ [])
            ++ fetched (sign_fetch host node signed) ∷ [])
unfolding sign_with_bootstrap_group read_signature
sign-asks_node host sdk o w w' sig x =
    elim (Answer-cases (
      sdk o.session_keypair o.claims o.network.bootstrap_group (hex_to_bytes o.digest_hex)
        o.identity)) [
          | inl (m, e) ↦ absurd (clash (simp e at x))
          | inr (signed, e) ↦ elim (Option-cases (truthy (chosen_node o))) [
            | inl f ↦ absurd (clash (simp (e, f) at x))
            | inr (node, f) ↦
                elim (Answer-cases (
                  host.respond (w.trace ++ called (codes "signSignRequest") ∷ [])
                    (sign_fetch host node signed))) [
                      | inl (m, g) ↦ absurd (clash (simp (e, f, g) at x))
                      | inr (res, g) ↦ elim (Bool-cases (is_ok res)) [
                        | inl good ↦ (
                          node,
                          signed,
                          res,
                          f,
                          e,
                          g,
                          good,
                          ap (λ r. r.0) (simp (e, f, g, good) at x),
                          ap (λ (r : Result Str × World). r.1.trace)
                              (sym (simp (e, f, g, good) at x)),
                        )
                        | inr bad ↦ absurd (
                            read_signature_refused host node res _ w' sig bad (simp (e, f, g) at x))
                      ]
                    ]
          ]
        ]
  where
    clash : {f : Failure} {v : World} → ◌≡◌ {A = Result Str × World} (err f, v) (ok sig, w') → ⊥
    clash e = cc e

Keeps-read :
    (host : Host) (node : Str) (res : Response) → Keeps token (read_signature host node res)
unfolding read_signature
Keeps-read host node res =
    Keeps-if token (is_ok res) (lift (read_body host res.text)) _ (λ w. refl)
      (Keeps-if token (res.status == 401) (clear_signing_session >> raise session_expired) _
        (Keeps->>= token clear_signing_session _ Keeps-clear (λ u w. refl)) (λ w. refl))

-- Signing leaves the session token as it is.
pub Keeps-sign :
    (host : Host) (sdk : SignRequest) (o : SignOptions)
    → Keeps token (sign_with_bootstrap_group host sdk o)
unfolding sign_with_bootstrap_group
Keeps-sign host sdk o w =
    Keeps->>= token
      (lift (
        external (
          sdk o.session_keypair o.claims o.network.bootstrap_group (hex_to_bytes o.digest_hex)
            o.identity)))
      _ (λ v. refl)
      (λ signed.
        Keeps->>= token (lift (or_throw no_bootstrap_nodes (truthy (chosen_node o)))) _ (λ v. refl)
          (λ node.
            Keeps->>= token (fetch host (sign_fetch host node signed)) _ (λ v. refl)
              (Keeps-read host node)))
      (await (called (codes "signSignRequest")) w).1
