-- ===== src/Tests/Console.antt =====
-- Tests of the console's scope.
use signet_platform.Prelude.{◌≡◌, refl, true, none, some, [], ◌∷◌}
use signet_platform.Prelude.Text.{Str, codes}
use signet_platform.Console.SignOut.{
  IsSignedOut, IsEnded, sign_out_steps, sign_out_steps-IsSignedOut,
}
use signet_platform.Api.Endpoints.{Endpoint, call_of}
use signet_platform.Api.AppEndpoints.{send}
use signet_platform.Tests.Samples.{host, codec, full_tab}
use signet_platform.Tests.GroupPage.{urls}
use signet_platform.Types.Account.{Organization, Session, Plan}
use signet_platform.Console.{Console, loading, apply, active_org}
use signet_platform.Tests.Samples.{user, network}

abbrev pub org : Str → Organization
org id = record {
  id = id;
  name = codes "Acme";
  slug = codes "acme";
  logo_url = none;
  website_url = none;
  billing_email = none;
  plan = Plan.team;
  role = none;
  app_count = 1;
  created_at = codes "2026-01-01";
}

abbrev pub session : Session
session = record {
  user = user;
  organizations = org (codes "o1") ∷ org (codes "o2") ∷ [];
  network = network;
}

-- A console that was scoped to the second organization in an earlier visit.
abbrev pub reopened : Console
reopened = record {
  status = loading;
  user = none;
  organizations = [];
  network = none;
  active_org_id = none;
  stored_org = some (codes "o2");
  org_open = true;
}

rescoped : active_org (apply session reopened) ≡ some (org (codes "o2"))
unfolding active_org apply
rescoped = refl

sign_out_steps-IsSignedOut_example :
    IsSignedOut
      (host 500)
      urls
      codec
      (full_tab 0)
      reopened
      (sign_out_steps (host 500) urls (full_tab 0) reopened).1
    × IsEnded
        (send (host 500) (call_of urls Endpoint.logout) (full_tab 0)).0
        (sign_out_steps (host 500) urls (full_tab 0) reopened).0
sign_out_steps-IsSignedOut_example =
    sign_out_steps-IsSignedOut (host 500) urls codec (full_tab 0) reopened
