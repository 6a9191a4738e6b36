-- ===== src/SignIn/Verified.antt =====
-- web/app/auth/callback/page.tsx: what the platform has verified of a sign-in.
use signet_platform.Prelude.{◌≡◌, refl, subst, sym, ap, ◌∙◌, Option, none, some}
use signet_platform.Prelude.Text.{Str, codes}
use signet_platform.Types.Account.{NetworkConfig}
use signet_platform.Effects.Failure.{ok}
use signet_platform.Effects.World.{World}
use signet_platform.Effects.Stages.{signing}
use signet_platform.Effects.Laws.{>>=-eq-ok, present_first, pure-eq-ok}
use signet_platform.Effects.Host.{Host}
use signet_platform.Api.Endpoints.{Endpoint, call_of, text_field, maybe_field}
use signet_platform.Api.AppEndpoints.{send}
use signet_platform.Signet.{sign_with_bootstrap_group}
use signet_platform.Provision.Steps.{counterfactual_account}
use signet_platform.SessionKey.{Claims, SessionKeypair, Codec}
use signet_platform.Provision.Requests.{GeneratedKey}
use signet_platform.SignIn.Sdk.{Sdk, VerifyResult}
use signet_platform.Effects.Json.{Json, end}
use signet_platform.SignIn.Callback.{challenge_options, verify_body, verify_steps, at}

module _ (sdk : Sdk) (host : Host) (json : Codec) (network : NetworkConfig) where
  -- The platform gave a challenge, the bootstrap group signed its digest with the session at the node,
  -- and the platform has verified the signature with the nonce of the challenge and the key.
  abbrev pub HasVerified :
      Str × Claims × SessionKeypair
      → Str × GeneratedKey
      → World
      → Option Str × VerifyResult
      → World
      → Type 0
  HasVerified (jwt, claims, keypair) (node, key) v (account, result) x =
      (answer verified : Json) × (digest signature : Str) × (t u s : World) × (send host
          (call_of sdk.urls (Endpoint.challenge (codes "signet") none)) (at signing v).1
        ≡ (ok answer, t))
      × ((sdk.as_challenge answer).digest ≡ some digest)
      × (sign_with_bootstrap_group host sdk.sign_request
            (record {
              network = network;
              session_keypair = keypair;
              claims = claims;
              digest_hex = digest;
              identity = none;
              node_url = some node;
            })
            t
          ≡ (ok signature, u))
      × (send host
            (call_of sdk.urls (
              Endpoint.verify (
                text_field (codes "method") (codes "signet") (
                  text_field (codes "nonce") (sdk.as_challenge answer).nonce (
                    text_field (codes "signature") signature (
                      text_field (codes "group_public_key") key.group_public_key
                        (maybe_field (codes "account") account end)))))))
            s
          ≡ (ok verified, x))
      × (result ≡ sdk.as_verified verified)

  pub verify_steps-HasVerified :
      (o : Str × Claims × SessionKeypair) (l : Str × GeneratedKey) (v x : World)
      (r : Option Str × VerifyResult)
      → verify_steps sdk host json network o l v ≡ (ok r, x)
      → HasVerified o l v r x
  unfolding verify_steps verify_body
  verify_steps-HasVerified (jwt, claims, keypair) (node, key) v x r h =
      let (answer, t, p, rest) = >>=-eq-ok (send host _) _ _ r x h in
      let (digest, d, rest₂) = present_first _ (sdk.as_challenge answer).digest _ t r x rest in
      let (signature, u, q, rest₃) =
        >>=-eq-ok
          (sign_with_bootstrap_group host sdk.sign_request
            (challenge_options network keypair claims digest node))
          _ t r x rest₂ in
      let (account, s, a, rest₄) =
        >>=-eq-ok (counterfactual_account host sdk.provider network key.group_public_key) _ _ r x
          rest₃ in
      let (verified, y, z, rest₅) = >>=-eq-ok (send host _) _ s r x rest₄ in
      let (same, left) = pure-eq-ok (account, sdk.as_verified verified) r y x rest₅ in
      subst (λ e. HasVerified (jwt, claims, keypair) (node, key) v e x) same
        (
          answer,
          verified,
          digest,
          signature,
          t,
          u,
          s,
          p,
          d,
          q,
          z ∙ ap (λ b. (ok verified, b)) (sym left),
          refl,
        )
