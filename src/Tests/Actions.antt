-- ===== src/Tests/Actions.antt =====
-- Tests of the actions of the console's pages.
use signet_platform.Prelude.{◌≡◌, refl, ◌⊎◌, true, false, none, some, [], ◌∷◌, map}
use signet_platform.Prelude.Text.{codes, ◌===◌}
use signet_platform.Effects.Json.{obj, bool, str, null, end, field, get_field}
use signet_platform.Effects.Failure.{ok}
use signet_platform.Actions.Toasts.{failure, Toast, tested}
use signet_platform.Actions.Plans.{PageAction, add_domain, remove_domain, archive, plan_of}
use signet_platform.Actions.{Page, is_offered, act}
use signet_platform.Actions.Done.{IsDone, act-IsDone}
use signet_platform.Tests.Samples.{host, tab}
use signet_platform.Tests.GroupPage.{urls}

abbrev page : Page
page = record { error = none; toasts = [] }

abbrev adds : PageAction
adds = add_domain (codes "a1") (codes " https://app.acme.dev")

act-IsDone_example :
    ((is_offered adds ≡ true)
      × IsDone
          (host 200)
          urls
          (plan_of urls adds)
          (tab 0 none)
          page
          (act (host 200) urls adds (tab 0 none, page)))
    ⊎ ((is_offered adds ≡ false)
        × (act (host 200) urls adds (tab 0 none, page) ≡ (tab 0 none, page)))
act-IsDone_example = act-IsDone (host 200) urls adds (tab 0 none) page

added_run :
    map (λ (t : Toast). t.title) (act (host 200) urls adds (tab 0 none, page)).1.toasts
    ≡ codes "Domain allowed" ∷ []
unfolding act signet_platform.Api.AppEndpoints.send signet_platform.Api.AppEndpoints.app_call
added_run = refl

-- A removal that the platform refuses leaves the page as it was: its error is not read.
silent_run :
    (act (host 500) urls (remove_domain (codes "a1") (codes "d1")) (tab 0 none, page)).1 ≡ page
unfolding act signet_platform.Api.AppEndpoints.send signet_platform.Api.AppEndpoints.app_call
silent_run = refl

-- An app is archived only when its name is typed.
archive_run : is_offered (archive (codes "a1") (some (codes "Acme")) (codes "acme")) ≡ false
unfolding is_offered ◌===◌
archive_run = refl

-- An endpoint that rejects a test, without saying why.
tested_run :
    tested (
      obj (
        field
          (codes "delivered")
          (bool false)
          (field (codes "error") null (field (codes "note") (str (codes "no answer")) end))))
    ≡ ok (record {
      kind = failure;
      title = codes "Endpoint rejected the test";
      detail = some (codes "no answer");
    })
unfolding tested get_field ◌===◌
tested_run = refl
