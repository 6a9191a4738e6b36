-- ===== src/Tests/Onboarding.antt =====
-- Tests of the creation of an organization.
use signet_platform.Prelude.{◌≡◌, refl, none, some}
use signet_platform.Prelude.Text.{codes, ◌===◌}
use signet_platform.Prelude.Space.{trim}
use signet_platform.Console.{active_org}
use signet_platform.Onboarding.{Visit, Answers, create_org}
use signet_platform.Tests.Samples.{host, full_tab}
use signet_platform.Tests.GroupPage.{urls}
use signet_platform.Tests.Console.{org, session, reopened}

-- The platform creates the second organization of the session.
abbrev answers : Answers
answers = record { organization_of = λ answer. org (codes "o2"); session_of = λ answer. session }

abbrev arrived : Visit
arrived = record {
  tab = full_tab 0;
  console = reopened;
  error = none;
  toast = none;
  gone_to = none;
}

onboarded_run :
    active_org (create_org (host 200) urls answers (codes " Acme") (codes "") arrived).console
    ≡ some (org (codes "o2"))
unfolding create_org trim active_org ◌===◌ signet_platform.Api.AppEndpoints.send
    signet_platform.Console.set_active_org signet_platform.Console.apply
onboarded_run = refl

-- An organization that the platform refuses leaves the page where it is.
refused_run : (create_org (host 500) urls answers (codes "Acme") (codes "") arrived).gone_to ≡ none
unfolding create_org trim signet_platform.Api.AppEndpoints.send
refused_run = refl
