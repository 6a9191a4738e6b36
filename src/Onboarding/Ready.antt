-- ===== src/Onboarding/Ready.antt =====
-- web/app/(console)/onboarding/page.tsx: how the creation of an organization ends.
use signet_platform.Prelude.{◌≡◌, ◌⊎◌, true, none, some, [], ◌++◌, false}
use signet_platform.Prelude.Text.{Str, codes, is_empty}
use signet_platform.Prelude.Space.{trim}
use signet_platform.Types.Account.{Organization}
use signet_platform.Effects.Failure.{Failure, Result, ok, err}
use signet_platform.Effects.Json.{Json}
use signet_platform.Effects.World.{World}
use signet_platform.Effects.Host.{Host}
use signet_platform.Api.Query.{Urls}
use signet_platform.Api.Endpoints.{Endpoint, call_of}
use signet_platform.Api.AppEndpoints.{send}
use signet_platform.Console.{Console, signed_in, signed_out, active_org, has_org}
use signet_platform.Onboarding.{Visit, Answers, create_org_call}

module _ (host : Host) (urls : Urls) (answers : Answers) where
  -- The console after the session was read again, for an organization: scoped to it if the user
  -- belongs to it, or signed out if the platform did not accept the token.
  abbrev pub IsScoped : Organization → Result Json → Console → Type 0
  IsScoped org (ok answer) c =
      (c.status ≡ signed_in)
      × (has_org org.id (answers.session_of answer).organizations ≡ true
          → (p : Organization) × (active_org c ≡ some p) × (p.id ≡ org.id))
  IsScoped org (err e) c = (c.status ≡ signed_out) × (c.user ≡ none) × (c.organizations ≡ [])

  module _ (name email : Str) (v : Visit) where
    abbrev pub created_with : Result Json × World
    created_with = send host (create_org_call urls name email) v.tab

    -- The session is asked for in the tab that the creation leaves.
    abbrev pub read_with : World → Result Json × World
    read_with w = send host (call_of urls Endpoint.me) w

    pub data IsOnboarded : Visit → Type 0 where
      unsent : is_empty (trim name) ≡ true → IsOnboarded v
      failed :
          (e : Failure) (u : World)
          → is_empty (trim name) ≡ false
          → ((created_with ≡ (err e, u))
              ⊎ ((answer : Json) × (w w1 : World) × (created_with ≡ (ok answer, w))
                  × (read_with w ≡ (err e, w1))))
          → IsOnboarded (record v { tab = u; error = some e })
      ready :
          (answer : Json) (w : World) (done : Visit)
          → is_empty (trim name) ≡ false
          → created_with ≡ (ok answer, w)
          → IsScoped (answers.organization_of answer) (read_with w).0 done.console
          → done.console.active_org_id ≡ some (answers.organization_of answer).id
          → done.error ≡ none
          → done.toast ≡ some ((answers.organization_of answer).name ++ codes " is ready")
          → done.gone_to ≡ some (codes "/apps/new")
          → IsOnboarded done
