-- ===== src/SignIn/Login.antt =====
-- web/app/login/page.tsx: the two buttons of the login page.
pub mod Redirect
pub mod Verified
use signet_platform.Prelude.{Bool, true, ◌||◌, Option, none, some, length, ◌==◌, if◌then◌else◌}
use signet_platform.Prelude.Text.{Str, codes, truthy, is_empty}
use signet_platform.Types.Account.{NetworkConfig}
use signet_platform.Effects.Failure.{
  Failure, Result, ok, err, external, or_throw, no_google_client, no_bootstrap_group, no_network,
}
use signet_platform.Effects.Json.{Fields, end}
use signet_platform.Effects.World.{
  World, Exec, ◌>>=◌, ◌>>◌, pure, raise, lift, emit, await, called, signed_in, navigated,
}
use signet_platform.Effects.Host.{Host}
use signet_platform.Effects.Wallet.{Wallet}
use signet_platform.Api.{store_token}
use signet_platform.Api.Endpoints.{Endpoint, call_of, text_field}
use signet_platform.Api.AppEndpoints.{send}
use signet_platform.SessionKey.{Codec}
use signet_platform.Signet.Siwe.{Page, SignedMessage, siwe_sign_in}
use signet_platform.Provision.Steps.{provision_signet_key}
use signet_platform.SignIn.Sdk.{Sdk, LoginChallenge, VerifyResult, siwe_challenge}
use signet_platform.SignIn.Callback.{remember_nonce}

-- `busy`, without its `null`
pub data Route : Type 0 where
  signet siwe : Route

pub record Screen : Type 0 where
  pub busy : Option Route
  pub error : Option Failure
  pub provisioning : Option Str

-- `!network?.bootstrap_group || network.bootstrap_nodes.length === 0`
unfoldable pub lacks_group : Option NetworkConfig → Bool
lacks_group none = true
lacks_group (some n) = is_empty n.bootstrap_group || length n.bootstrap_nodes == 0

-- The body of the verification of a wallet's signature.
unfoldable pub wallet_body : Str → SignedMessage → Fields
wallet_body nonce signed = text_field (codes "method") (codes "siwe") (
    text_field (codes "nonce") nonce (
      text_field (codes "message") signed.message
        (text_field (codes "signature") signed.signature end)))

-- What `signInWithSignet` shows once its `try` has ended. A redirect that is asked for leaves the
-- page busy, until the browser leaves it.
abbrev pub after_redirect : Screen → Result (Unit {0}) × World → World × Screen
after_redirect screen (ok u, w) = (w, record screen { busy = some signet; error = none })
after_redirect screen (err e, w) = (w, record screen { busy = none; error = some e })

-- What `signInWithWallet` shows at its end: its `finally` clears what the page shows while it works.
abbrev pub after_wallet : Screen → Result (Unit {0}) × World → World × Screen
after_wallet screen (ok u, w) = (w, record { busy = none; error = none; provisioning = none })
after_wallet screen (err e, w) = (w, record { busy = none; error = some e; provisioning = none })

module _ (sdk : Sdk) (host : Host) where
  -- The `try` of `signInWithSignet`: `client` is `NEXT_PUBLIC_GOOGLE_CLIENT_ID`, `next` where to go.
  unfoldable pub redirect_steps : Option Str → Option NetworkConfig → Str → Exec (Unit {0})
  unfolding lacks_group
  redirect_steps client network next = do
    answer ← send host (call_of sdk.urls (Endpoint.challenge (codes "signet") none))
    remember_nonce (sdk.as_challenge answer).nonce
    id ← lift (or_throw no_google_client (truthy client))
    if lacks_group network then raise no_bootstrap_group else pure tt
    await (called (codes "startGoogleOAuth"))
    lift (external (sdk.start_oauth id (codes "/auth/callback") next))

  unfoldable pub sign_in_with_signet :
      Option Str → Option NetworkConfig → Str → World × Screen → World × Screen
  unfolding redirect_steps
  sign_in_with_signet client network next (w, screen) =
      after_redirect screen (redirect_steps client network next w)

  -- Of the wallet's sign-in, what comes before the token.
  unfoldable pub wallet_steps : Option Wallet → Page → Exec VerifyResult
  unfolding wallet_body
  wallet_steps wallet page = do
    answer ← send host (call_of sdk.urls (Endpoint.challenge (codes "siwe") none))
    let c = sdk.as_challenge answer
    signed ← siwe_sign_in wallet page (siwe_challenge c)
    verified ← send host (call_of sdk.urls (Endpoint.verify (wallet_body c.nonce signed)))
    pure (sdk.as_verified verified)

  -- `onSignedIn`, and the key that it issues.
  unfoldable pub issue_steps : Codec → Option NetworkConfig → Str → VerifyResult → Exec (Unit {0})
  unfolding store_token
  issue_steps json network next result = do
    store_token (some result.token)
    emit (signed_in result.token)
    there ← lift (or_throw no_network network)
    provision_signet_key host sdk.provider json there
    emit (navigated next)

  -- `signInWithWallet`
  unfoldable pub sign_in_with_wallet :
      Codec → Option Wallet → Page → Option NetworkConfig → Str → World × Screen → World × Screen
  unfolding wallet_steps issue_steps
  sign_in_with_wallet json wallet page network next (w, screen) =
      after_wallet screen ((wallet_steps wallet page >>= issue_steps json network next) w)
