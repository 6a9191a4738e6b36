-- ===== src/Tests/Deploy.antt =====
-- Tests of the deployment of an app.
use signet_platform.Prelude.{◌≡◌, refl, none, some, [], ◌∷◌, Option}
use signet_platform.Prelude.Text.{Str, codes}
use signet_platform.Types.Account.{Organization, Plan}
use signet_platform.Effects.World.{World}
use signet_platform.Api.Query.{Urls}
use signet_platform.Wizard.Deploy.{Draft, Deployment, client_ids_of, deploy}
use signet_platform.Wizard.Deployed.{IsEnded, deploy-IsEnded}
use signet_platform.Tests.Samples.{user, network, full_tab}
use signet_platform.Tests.Onchain.{console}
use signet_platform.Tests.GroupPage.{app}

abbrev org : Organization
org = record {
  id = codes "o1";
  name = codes "Acme";
  slug = codes "acme";
  logo_url = none;
  website_url = none;
  billing_email = none;
  plan = Plan.team;
  role = none;
  app_count = 0;
  created_at = codes "2026-01-01";
}

abbrev google : Str
google = codes "https://accounts.google.com"

abbrev draft : Draft
draft = record {
  name = codes " Acme ";
  description = [];
  selected = codes "0x01" ∷ codes "0x02" ∷ [];
  threshold = 2;
  removal_delay = 86_400;
  issuers = google ∷ [];
  client_ids = λ i. some (codes "c1, c2,,");
}

trimmed : client_ids_of draft google ≡ codes "c1" ∷ codes "c2" ∷ []
unfolding client_ids_of signet_platform.Prelude.Space.trim
trimmed = refl

abbrev urls : Urls
urls = record { component = λ s. s; form = λ ps. [] }

abbrev shown : Deployment
shown = record { stage = none; failure = none }

abbrev deployed : World × Deployment
deployed =
    deploy (console none) urls (λ j. app) (some org) (some network) (some user) draft none
      (full_tab 0, shown)

-- The deployment ends as done at these inputs.
deployed_run : deployed.1.failure ≡ none
unfolding deploy signet_platform.Api.AppEndpoints.send
    signet_platform.Onchain.Call.sign_create_group signet_platform.Onchain.Call.sign_call
    signet_platform.SessionKey.load_signing_session
    signet_platform.UserOp.Build.build_signed_user_op signet_platform.UserOp.Build.build_steps
    signet_platform.UserOp.Build.draft_step signet_platform.UserOp.Build.stub_step
    signet_platform.UserOp.Build.estimate_step signet_platform.UserOp.Build.sponsor_step
    signet_platform.UserOp.Build.sign_step signet_platform.Signet.sign_with_bootstrap_group
    signet_platform.UserOp.Wire.serialize signet_platform.Prelude.Hex.big_int
    signet_platform.UserOp.Wire.pack_pair signet_platform.Prelude.Hex.to_string16
deployed_run = refl

deploy-IsEnded_example :
    IsEnded (console none) urls (λ j. app) org network user draft none (full_tab 0) deployed
deploy-IsEnded_example =
    deploy-IsEnded (console none) urls (λ j. app) org network user draft none (full_tab 0) shown
