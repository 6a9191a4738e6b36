-- ===== src/SignIn/Login/Verified.antt =====
-- web/app/login/page.tsx: what a sign-in with a wallet comes to.
use signet_platform.Prelude.{◌≡◌, ◌∙◌, refl, sym, ap, ◌⊎◌, inl, inr, Option, none, some, arith}
use signet_platform.Prelude.Text.{Str, codes}
use signet_platform.Types.Account.{NetworkConfig}
use signet_platform.Effects.Failure.{Failure, Result, ok, err, no_network}
use signet_platform.Effects.World.{World, emit, signed_in, ◌>>=◌}
use signet_platform.Effects.Keeps.{Keeps, Keeps->>=, token}
use signet_platform.Effects.Laws.{>>=-eq-ok, >>=-eq-err, present_first, pure-eq-ok}
use signet_platform.Effects.Host.{Host}
use signet_platform.Effects.Wallet.{Wallet}
use signet_platform.Api.{store_token}
use signet_platform.Effects.Json.{Json, end}
use signet_platform.Api.Endpoints.{Endpoint, call_of, text_field}
use signet_platform.Api.AppEndpoints.{send}
use signet_platform.SessionKey.{Codec}
use signet_platform.Signet.Siwe.{Page, Challenge, SignedMessage, siwe_sign_in}
use signet_platform.Signet.Siwe.Signed.{IsSigned, siwe_sign_in-IsSigned}
use signet_platform.Provision.Requests.{ProvisionResult}
use signet_platform.Provision.Steps.{provision_signet_key}
use signet_platform.Provision.Session.{IsProvisioned, provision_signet_key-IsProvisioned}
use signet_platform.SignIn.Sdk.{Sdk, VerifyResult, siwe_challenge}
use signet_platform.SignIn.Session.{Keeps-send_token}
use signet_platform.SignIn.Login.{
  Screen, wallet_body, wallet_steps, issue_steps, sign_in_with_wallet, after_wallet,
}

Keeps-siwe :
    (wallet : Option Wallet) (page : Page) (c : Challenge)
    → Keeps token (siwe_sign_in wallet page c)
unfolding siwe_sign_in
Keeps-siwe none page c w = refl
Keeps-siwe (some wallet) page c w = ground arith

module _ (sdk : Sdk) (host : Host) where
  Keeps-wallet :
      (wallet : Option Wallet) (page : Page) → Keeps token (wallet_steps sdk host wallet page)
  unfolding wallet_steps
  Keeps-wallet wallet page = Keeps->>= token (send host _) _ (Keeps-send_token host _) (λ answer.
      Keeps->>= token (siwe_sign_in wallet page (siwe_challenge (sdk.as_challenge answer))) _
        (Keeps-siwe wallet page (siwe_challenge (sdk.as_challenge answer)))
        (λ signed. Keeps->>= token (send host _) _ (Keeps-send_token host _) (λ verified w. refl)))

  -- The platform gave a challenge, the wallet signed the message for it, and the platform has verified
  -- the signature with the nonce of the challenge, and has answered `result`.
  abbrev pub IsVerified : Option Wallet → Page → World → VerifyResult → World → Type 0
  IsVerified wallet page w result v =
      (answer : Json) × (signed : SignedMessage) × (verified : Json) × (t u : World) × (send host
          (call_of sdk.urls (Endpoint.challenge (codes "siwe") none)) w
        ≡ (ok answer, t))
      × (siwe_sign_in wallet page (siwe_challenge (sdk.as_challenge answer)) t ≡ (ok signed, u))
      × IsSigned wallet page (siwe_challenge (sdk.as_challenge answer)) t signed
      × (send host
            (call_of sdk.urls (
              Endpoint.verify (
                text_field (codes "method") (codes "siwe") (
                  text_field (codes "nonce") (sdk.as_challenge answer).nonce (
                    text_field (codes "message") signed.message
                      (text_field (codes "signature") signed.signature end))))))
            u
          ≡ (ok verified, v))
      × (result ≡ sdk.as_verified verified)

  wallet_steps-IsVerified :
      (wallet : Option Wallet) (page : Page) (w v : World) (result : VerifyResult)
      → wallet_steps sdk host wallet page w ≡ (ok result, v)
      → IsVerified wallet page w result v
  unfolding wallet_steps wallet_body
  wallet_steps-IsVerified wallet page w v result h =
      let (answer, t, p, rest) = >>=-eq-ok (send host _) _ w result v h in
      let (signed, u, q, rest₂) =
        >>=-eq-ok (siwe_sign_in wallet page (siwe_challenge (sdk.as_challenge answer))) _ t result v
          rest in
      let (verified, x, r, rest₃) = >>=-eq-ok (send host _) _ u result v rest₂ in
      let (same, left) = pure-eq-ok (sdk.as_verified verified) result x v rest₃ in
      (
        answer,
        signed,
        verified,
        t,
        u,
        p,
        q,
        siwe_sign_in-IsSigned wallet page (siwe_challenge (sdk.as_challenge answer)) t u signed q,
        r ∙ ap (λ y. (ok verified, y)) (sym left),
        sym same,
      )

  -- A key was issued after the verification, and its session is in the tab.
  abbrev pub IsIssued : Codec → Option NetworkConfig → VerifyResult → World → World → Type 0
  IsIssued json network result v w =
      (there : NetworkConfig) × (x : World) × (key : ProvisionResult) × (network ≡ some there)
      × IsProvisioned host sdk.provider json there
          (emit (signed_in result.token) (store_token (some result.token) v).1).1 x key
      × (w.cells ≡ x.cells)

  issue_steps-IsIssued :
      (json : Codec) (network : Option NetworkConfig) (next : Str) (result : VerifyResult)
      (v w : World)
      → issue_steps sdk host json network next result v ≡ (ok tt, w)
      → IsIssued json network result v w
  unfolding issue_steps
  issue_steps-IsIssued json network next result v w h =
      let start : World = (emit (signed_in result.token) (store_token (some result.token) v).1).1 in
      let (there, there_eq, rest) = present_first no_network network _ start tt w h in
      let (key, x, p, rest₂) =
        >>=-eq-ok (provision_signet_key host sdk.provider json there) _ start tt w rest in
      (
        there,
        x,
        key,
        there_eq,
        provision_signet_key-IsProvisioned host sdk.provider json there start x key p,
        sym (ap (λ (r : Result (Unit {0}) × World). r.1.cells) rest₂),
      )

  -- What the page and the tab are once a wallet's sign-in has ended.
  abbrev pub IsEnded :
      Codec → Option Wallet → Page → Option NetworkConfig → Str → World → World × Screen → Type 0
  IsEnded json wallet page network next w (w', screen) =
      (screen.busy ≡ none)
      × (screen.provisioning ≡ none)
      × (((screen.error ≡ none)
            × ((result : VerifyResult) × (v : World) × IsVerified wallet page w result v
                × IsIssued json network result v w'))
          ⊎ ((e : Failure) × (screen.error ≡ some e)
              × (((wallet_steps sdk host wallet page w ≡ (err e, w')) × (w'.token ≡ w.token))
                  ⊎ ((result : VerifyResult) × (v : World) × IsVerified wallet page w result v
                      × (issue_steps sdk host json network next result v ≡ (err e, w'))))))

  -- A wallet's sign-in always ends with the buttons free and no progress shown: without an error
  -- once the platform has verified the wallet's signature with the nonce of its challenge and a key
  -- has been issued, and otherwise with the error shown: that of the verification, with the token
  -- as it was, or, once the platform has verified the signature, that of issuing the key.
  pub sign_in_with_wallet-IsEnded :
      (json : Codec) (wallet : Option Wallet) (page : Page) (network : Option NetworkConfig)
      (next : Str) (w : World) (s : Screen)
      → IsEnded json wallet page network next w
          (sign_in_with_wallet sdk host json wallet page network next (w, s))
  unfolding sign_in_with_wallet
  sign_in_with_wallet-IsEnded json wallet page network next w s =
      after_wallet-IsEnded
        ((wallet_steps sdk host wallet page >>= issue_steps sdk host json network next) w) refl
    where
      after_wallet-IsEnded :
          (r : Result (Unit {0}) × World)
          → (wallet_steps sdk host wallet page >>= issue_steps sdk host json network next) w ≡ r
          → IsEnded json wallet page network next w (after_wallet s r)
      after_wallet-IsEnded (ok u, v) h =
          let (result, x, p, rest) =
            >>=-eq-ok (wallet_steps sdk host wallet page) (issue_steps sdk host json network next) w
              tt v h in
          (
            refl,
            refl,
            inl (
              refl,
              (
                result,
                x,
                wallet_steps-IsVerified wallet page w x result p,
                issue_steps-IsIssued json network next result x v rest,
              ),
            ),
          )
      after_wallet-IsEnded (err e, v) h =
          elim (>>=-eq-err (wallet_steps sdk host wallet page)
            (issue_steps sdk host json network next) w e v h) [
              | inl p ↦
                  let same = sym (ap (λ (r : Result VerifyResult × World). r.1.token) p) in
                  (refl, refl, inr (e, refl, inl (p, same ∙ Keeps-wallet wallet page w)))
              | inr (result, x, p, rest) ↦ (
                refl,
                refl,
                inr (
                  e,
                  refl,
                  inr (result, x, wallet_steps-IsVerified wallet page w x result p, rest),
                ),
              )
            ]
