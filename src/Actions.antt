-- ===== src/Actions.antt =====
-- The actions of the console's pages that make one request of the API, read again what they may have
-- changed and say how it went: those of the pages of an organization's members, settings and bills,
-- of the account, and of an app's domains, session signers, users, settings, webhooks, policies and
-- group. The input fields that they clear and the pages that they open are left out.
pub mod Toasts
pub mod Plans
pub mod Done
use signet_platform.Prelude.{
  Bool, true, false, not, Option, none, some, List, [], ◌∷◌, ◌++◌, if◌then◌else◌,
}
use signet_platform.Prelude.Text.{Str, is_empty, ◌===◌}
use signet_platform.Prelude.Space.{trim}
use signet_platform.Effects.Failure.{Failure, Result, ok, err}
use signet_platform.Effects.Json.{Json}
use signet_platform.Effects.World.{World, Exec, ◌>>=◌, ◌>>◌, pure, lift, try_catch}
use signet_platform.Effects.Host.{Host}
use signet_platform.Api.Query.{Urls}
use signet_platform.Api.AppEndpoints.{send}
use signet_platform.Console.Refresh.{refresh_session}
use signet_platform.Actions.Toasts.{Toast}
use signet_platform.Actions.Plans.{
  PageAction, add_domain, archive, Reread, query, session, Plan, plan_of,
}

-- `if (origin.trim()) add();`, and the button that archives an app
unfoldable pub is_offered : PageAction → Bool
unfolding trim ◌===◌
is_offered (archive app name typed) = elim name [ none ↦ false | some n ↦ typed === n ]
is_offered (add_domain app origin) = not (is_empty (trim origin))
is_offered _ = true

-- The error that the page shows, and its toasts
pub record Page : Type 0 where
  pub error : Option Failure
  pub toasts : List Toast

abbrev pub after_action : Plan → Page → Result Toast × World → World × Page
after_action plan page (ok t, w) = (
  w,
  record { error = if plan.shows_error then none else page.error; toasts = page.toasts ++ t ∷ [] },
)
after_action plan page (err e, w) =
    (w, record page { error = if plan.shows_error then some e else page.error })

module _ (host : Host) (urls : Urls) where
  unfoldable pub read_again : List Reread → Exec (Unit {0})
  read_again [] = pure tt
  read_again (query c ∷ more) = try_catch (send host c >> pure tt) (pure tt) >> read_again more
  read_again (session ∷ more) = refresh_session host urls >> read_again more

  -- The rest of an action, once its request has been accepted.
  unfoldable pub conclude : Plan → Json → Exec Toast
  unfolding read_again
  conclude plan answer = read_again plan.rereads >> lift (plan.toast answer)

  unfoldable pub plan_steps : Plan → Exec Toast
  unfolding conclude
  plan_steps plan = send host plan.request >>= conclude plan

  unfoldable pub act : PageAction → World × Page → World × Page
  unfolding plan_of is_offered plan_steps
  act a (w, page) =
      if is_offered a
      then after_action (plan_of urls a) page (plan_steps (plan_of urls a) w)
      else (w, page)
