-- ===== src/SignIn/Login/Redirect.antt =====
-- web/app/login/page.tsx: the sign-in that goes by Google, until it leaves the page.
use signet_platform.Prelude.{◌≡◌, refl, ap, false, ◌⊎◌, inl, inr, Option, none, some, arith}
use signet_platform.Prelude.Text.{Str, codes, truthy}
use signet_platform.Types.Account.{NetworkConfig}
use signet_platform.Effects.Failure.{Failure, Result, ok, err, returned, no_bootstrap_group}
use signet_platform.Effects.Json.{Json}
use signet_platform.Effects.World.{World}
use signet_platform.Effects.Laws.{>>=-eq-ok, present_first, unless_first, external-eq-ok}
use signet_platform.Effects.Host.{Host}
use signet_platform.Api.Endpoints.{call_of, Endpoint}
use signet_platform.Api.AppEndpoints.{send}
use signet_platform.SignIn.Sdk.{Sdk}
use signet_platform.SignIn.Callback.{remember_nonce, recall_nonce}
use signet_platform.SignIn.Login.{
  Screen, redirect_steps, sign_in_with_signet, after_redirect, lacks_group, signet,
}

module _ (sdk : Sdk) (host : Host) where
  -- The redirect to Google has been asked for, with the nonce of the platform's challenge kept.
  abbrev pub IsRedirected : Option Str → Option NetworkConfig → Str → World → World → Type 0
  IsRedirected client network next w w' =
      (id : Str) × (answer : Json) × (truthy client ≡ some id)
      × ((send host (call_of sdk.urls (Endpoint.challenge (codes "signet") none)) w).0 ≡ ok answer)
      × (lacks_group network ≡ false)
      × (sdk.start_oauth id (codes "/auth/callback") next ≡ returned tt)
      × (recall_nonce w' ≡ (ok (some (sdk.as_challenge answer).nonce), w'))

  recall-remember :
      (nonce : Str) (v w : World)
      → remember_nonce nonce v ≡ (ok tt, w)
      → (u : World) → u.cells ≡ w.cells
      → u.readable ≡ w.readable
      → recall_nonce u ≡ (ok (some nonce), u)
  recall-remember nonce v w h u c r = ground arith

  redirect_steps-IsRedirected :
      (client : Option Str) (network : Option NetworkConfig) (next : Str) (w w' : World)
      → redirect_steps sdk host client network next w ≡ (ok tt, w')
      → IsRedirected client network next w w'
  unfolding redirect_steps
  redirect_steps-IsRedirected client network next w w' h =
      let (answer, v, p, rest) =
        >>=-eq-ok (send host (call_of sdk.urls (Endpoint.challenge (codes "signet") none))) _ w tt
          w' h in
      let (done, v₂, q, rest₂) =
        >>=-eq-ok (remember_nonce (sdk.as_challenge answer).nonce) _ v tt w' rest in
      let (id, id_eq, rest₃) = present_first _ (truthy client) _ v₂ tt w' rest₂ in
      let (group, rest₄) =
        unless_first (lacks_group network) no_bootstrap_group tt _ v₂ tt w' rest₃ in
      let (started, left) =
        external-eq-ok (sdk.start_oauth id (codes "/auth/callback") next) _ w' tt rest₄ in
      (
        id,
        answer,
        id_eq,
        ap (λ (x : Result Json × World). x.0) p,
        group,
        started,
        recall-remember _ v v₂ q w' (ap (λ (u : World). u.cells) left)
            (ap (λ (u : World). u.readable) left),
      )

  -- Of the page and the tab after a click: the redirect is under way, or the error is shown.
  abbrev pub IsClicked : Option Str → Option NetworkConfig → Str → World → World × Screen → Type 0
  IsClicked client network next w (w', screen) =
      ((screen.busy ≡ some signet) × (screen.error ≡ none) × IsRedirected client network next w w')
      ⊎ ((screen.busy ≡ none)
          × ((e : Failure) × (screen.error ≡ some e)
              × (redirect_steps sdk host client network next w ≡ (err e, w'))))

  -- A click on the Google button either leaves the page busy, with the redirect asked for, a signing
  -- group configured, and the nonce of the platform's challenge there for the page that it returns
  -- to, or shows the error that a step met, with the buttons free again.
  pub sign_in_with_signet-IsClicked :
      (client : Option Str) (network : Option NetworkConfig) (next : Str) (w : World) (s : Screen)
      → IsClicked client network next w (sign_in_with_signet sdk host client network next (w, s))
  unfolding sign_in_with_signet
  sign_in_with_signet-IsClicked client network next w s =
      after_redirect-IsClicked (redirect_steps sdk host client network next w) refl
    where
      after_redirect-IsClicked :
          (r : Result (Unit {0}) × World)
          → redirect_steps sdk host client network next w ≡ r
          → IsClicked client network next w (after_redirect s r)
      after_redirect-IsClicked (ok u, v) h =
          inl (refl, refl, redirect_steps-IsRedirected client network next w v h)
      after_redirect-IsClicked (err e, v) h = inr (refl, (e, refl, h))
