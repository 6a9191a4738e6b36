-- ===== src/SignIn/Session.antt =====
-- web/app/auth/callback/page.tsx: who is signed in when the sign-in fails, and what it leaves.
use signet_platform.Prelude.{◌≡◌, refl, ap, ◌∙◌, Bool, ◌⊎◌, inl, inr, Option, arith}
use signet_platform.Prelude.Text.{Str}
use signet_platform.Types.Account.{NetworkConfig}
use signet_platform.Effects.Failure.{Failure, ok, err}
use signet_platform.Effects.World.{World, Cells, lift}
use signet_platform.Effects.Keeps.{Keeps, Keeps->>=, failed, token}
use signet_platform.Effects.Host.{Host}
use signet_platform.Api.Endpoints.{Call}
use signet_platform.Api.AppEndpoints.{send}
use signet_platform.Api.Keeps.{Keeps-send}
use signet_platform.SessionKey.{Claims, SessionKeypair, Codec}
use signet_platform.Signet.{sign_with_bootstrap_group}
use signet_platform.Signet.Signing.{Keeps-sign}
use signet_platform.Provision.Requests.{GeneratedKey, Provider}
use signet_platform.Provision.Steps.{counterfactual_account}
use signet_platform.SignIn.Sdk.{Sdk, VerifyResult}
use signet_platform.SignIn.Callback.{open_steps, key_steps, verify_steps, complete_sign_in}

pub Keeps-send_token : (host : Host) (c : Call) → Keeps token (send host c)
Keeps-send_token host c w = ap (λ (s : Cells × Option Str × Bool). s.1) (Keeps-send host c w)

Keeps-account :
    (host : Host) (p : Provider) (network : NetworkConfig) (key : Str)
    → Keeps token (counterfactual_account host p network key)
unfolding counterfactual_account
Keeps-account host p network key w = ground arith

module _ (sdk : Sdk) (host : Host) (json : Codec) (network : NetworkConfig) where
  Keeps-open : Keeps token (open_steps sdk host json network)
  unfolding open_steps
  Keeps-open w = ground arith

  Keeps-key : (o : Str × Claims × SessionKeypair) → Keeps token (key_steps sdk host json network o)
  unfolding key_steps
  Keeps-key o w = ground arith

  Keeps-verify :
      (o : Str × Claims × SessionKeypair) (l : Str × GeneratedKey)
      → Keeps token (verify_steps sdk host json network o l)
  unfolding verify_steps
  Keeps-verify (jwt, claims, keypair) (node, key) w =
      Keeps->>= token (send host _) _ (Keeps-send_token host _)
        (λ answer.
          Keeps->>= token (lift _) _ (λ v. refl)
            (λ digest.
              Keeps->>= token (sign_with_bootstrap_group host sdk.sign_request _) _
                (Keeps-sign host sdk.sign_request _)
                (λ signature v.
                  Keeps->>= token
                    (counterfactual_account host sdk.provider network key.group_public_key) _
                    (Keeps-account host sdk.provider network key.group_public_key)
                    (λ account.
                      Keeps->>= token (send host _) _ (Keeps-send_token host _)
                        (λ verified u. refl))
                    _)))
        _

  -- In a sign-in that began in the tab `w` the platform has verified a signature, with what the
  -- steps until then gave.
  abbrev pub Verifies :
      World
      → Str × Claims × SessionKeypair
      → Str × GeneratedKey
      → Option Str × VerifyResult
      → Type 0
  Verifies w opened located verified =
      (u v x : World) × (open_steps sdk host json network w ≡ (ok opened, u))
      × (key_steps sdk host json network opened u ≡ (ok located, v))
      × (verify_steps sdk host json network opened located v ≡ (ok verified, x))

  abbrev pub HasVerified : World → Type 0
  HasVerified w =
      (opened : Str × Claims × SessionKeypair) × (located : Str × GeneratedKey) × (verified : Option
          Str
        × VerifyResult)
      × Verifies w opened located verified

  -- A sign-in that fails before the platform has verified the group's signature leaves the session
  -- token as it was.
  pub complete_sign_in-failed :
      (w w' : World) (e : Failure)
      → complete_sign_in sdk host json network w ≡ (err e, w')
      → (w'.token ≡ w.token) ⊎ HasVerified w
  unfolding complete_sign_in
  complete_sign_in-failed w w' e h =
      elim (failed token (open_steps sdk host json network) _ w w' e Keeps-open h) [
        | inl same ↦ inl same
        | inr (opened, u, p, k, rest) ↦
            elim (failed token (key_steps sdk host json network opened) _ u w' e (Keeps-key opened)
              rest) [
                | inl same ↦ inl (same ∙ k)
                | inr (located, v, q, l, rest₂) ↦
                    elim (failed token (verify_steps sdk host json network opened located) _ v w' e
                      (Keeps-verify opened located) rest₂) [
                        | inl same ↦ inl (same ∙ l ∙ k)
                        | inr (verified, x, r, m, rest₃) ↦
                            inr (opened, located, verified, (u, v, x, p, q, r))
                      ]
              ]
      ]
