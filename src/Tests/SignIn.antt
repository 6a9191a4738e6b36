-- ===== src/Tests/SignIn.antt =====
-- Tests of signing in.
use signet_platform.Prelude.{◌≡◌, refl, none, some, [], ◌∷◌}
use signet_platform.Prelude.Text.{codes}
use signet_platform.Effects.Failure.{ok, err, returned, lost_challenge}
use signet_platform.Effects.Json.{end, str, field}
use signet_platform.Effects.World.{World, nonce_key}
use signet_platform.Effects.Wallet.{Wallet}
use signet_platform.Signet.Siwe.{Page}
use signet_platform.SignIn.Sdk.{Sdk, LoginChallenge, VerifyResult}
use signet_platform.SignIn.Callback.{complete_sign_in}
use signet_platform.SignIn.Entered.{IsSignedIn, complete_sign_in-IsSignedIn}
use signet_platform.SignIn.Login.{Screen, sign_in_with_signet, sign_in_with_wallet}
use signet_platform.SignIn.Login.Redirect.{IsClicked, sign_in_with_signet-IsClicked}
use signet_platform.SignIn.Login.Verified.{IsEnded, sign_in_with_wallet-IsEnded}
use signet_platform.Tests.Samples.{claims, codec, tab, network, user, host}
use signet_platform.Tests.Provision.{provider, key}

abbrev challenge : LoginChallenge
challenge = record {
  nonce = codes "n1";
  statement = codes "Sign in";
  message = none;
  digest = some (codes "0x0102");
  domain = none;
  chain_id = none;
  uri = none;
}

abbrev verified : VerifyResult
verified = record {
  session = record { user = user; organizations = []; network = network };
  token = codes "t1";
}

abbrev sdk : Sdk
sdk = record {
  Proof = Unit;
  oauth_callback = λ path. returned (codes "jwt");
  decode_token = λ jwt. returned claims;
  server_proof = λ path jwt key. returned tt;
  authenticate = λ config proof key claims. returned tt;
  keygen = λ config keypair claims. returned key;
  start_oauth = λ client path next. returned tt;
  return_to = none;
  sign_request = λ keypair claims group digest identity.
      returned (field (codes "key_id") (str (codes "k")) end);
  provider = provider;
  urls = record { component = λ s. s; form = λ ps. [] };
  as_challenge = λ j. challenge;
  as_verified = λ j. verified;
}

-- A tab that comes back from the identity provider with the nonce it left with.
abbrev back : World
back = record (tab 1000 none) { cells = λ k. elim k [ nonce_key ↦ some (codes "n1") | _ ↦ none ] }

abbrev entered : World
entered = (complete_sign_in sdk (host 200) codec network back).1

entered_run : complete_sign_in sdk (host 200) codec network back ≡ (ok tt, entered)
unfolding complete_sign_in signet_platform.Api.AppEndpoints.send
    signet_platform.Signet.sign_with_bootstrap_group
    signet_platform.Provision.Steps.counterfactual_account
entered_run = refl

complete_sign_in-IsSignedIn_example : IsSignedIn sdk (host 200) codec network back entered
complete_sign_in-IsSignedIn_example =
    complete_sign_in-IsSignedIn sdk (host 200) codec network back entered entered_run

abbrev lost : World
lost = (complete_sign_in sdk (host 200) codec network (tab 1000 none)).1

lost_run :
    complete_sign_in sdk (host 200) codec network (tab 1000 none) ≡ (err lost_challenge, lost)
unfolding complete_sign_in
lost_run = refl

abbrev fresh : Screen
fresh = record { busy = none; error = none; provisioning = none }

sign_in_with_signet-IsClicked_example :
    IsClicked sdk (host 200) (some (codes "client")) (some network) (codes "/apps") (tab 0 none) (
      sign_in_with_signet sdk
        (host 200)
        (some (codes "client"))
        (some network)
        (codes "/apps")
        (tab 0 none, fresh))
sign_in_with_signet-IsClicked_example =
    sign_in_with_signet-IsClicked sdk (host 200) (some (codes "client")) (some network)
      (codes "/apps") (tab 0 none) fresh

abbrev wallet : Wallet
wallet = record {
  accounts = λ trace. returned (some (codes "0xEOA" ∷ []));
  sign = λ message address. returned (codes "0x51");
  send = λ from to code. returned (codes "0x7a");
  receipt = λ trace hash. returned none;
}

abbrev page : Page
page = record {
  host = codes "signet.dev";
  origin = codes "https://signet.dev";
  iso_time = λ t. codes "2026";
}

sign_in_with_wallet-IsEnded_example :
    IsEnded sdk (host 200) codec (some wallet) page (some network) (codes "/apps") (tab 0 none) (
      sign_in_with_wallet sdk
        (host 200)
        codec
        (some wallet)
        page
        (some network)
        (codes "/apps")
        (tab 0 none, fresh))
sign_in_with_wallet-IsEnded_example =
    sign_in_with_wallet-IsEnded sdk (host 200) codec (some wallet) page (some network)
      (codes "/apps") (tab 0 none) fresh

-- The wallet's sign-in completes at these inputs.
ended_run :
    (sign_in_with_wallet sdk
      (host 200)
      codec
      (some wallet)
      page
      (some network)
      (codes "/apps")
      (tab 0 none, fresh)).1
    ≡ fresh
unfolding sign_in_with_wallet signet_platform.Api.AppEndpoints.send
    signet_platform.Signet.Siwe.siwe_sign_in signet_platform.Provision.Steps.provision_signet_key
ended_run = refl
