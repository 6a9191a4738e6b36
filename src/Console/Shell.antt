-- ===== src/Console/Shell.antt =====
-- web/app/(console)/layout.tsx: what the layout of the console shows and where it redirects to, and
-- the apps that web/components/console/AppSwitcher.tsx offers.
use signet_platform.Prelude.{
  ◌==◌, true, not, ◌&&◌, Option, none, some, List, [], ◌++◌, filter, find, length, if◌then◌else◌,
}
use signet_platform.Prelude.Text.{Str, codes, ◌===◌}
use signet_platform.Prelude.Decimal.{to_decimal}
use signet_platform.Types.Account.{Organization}
use signet_platform.Types.GroupView.{App}
use signet_platform.Api.Query.{Urls}
use signet_platform.Console.{Console, Status, loading, signed_in, signed_out}

pub data Shown : Type 0 where
  logo nothing page : Shown

-- The early returns of the layout.
unfoldable pub shown_at : Status → Shown
shown_at loading = logo
shown_at signed_out = nothing
shown_at signed_in = page

-- The two effects that redirect; at most one of them does.
unfoldable pub redirect : Urls → Str → Console → Option Str
unfolding ◌===◌
redirect urls pathname c = elim c.status [
  | loading ↦ none
  | signed_out ↦ some (codes "/login?next=" ++ urls.component pathname)
  | signed_in ↦
      if length c.organizations == 0 && not (pathname === codes "/onboarding")
      then some (codes "/onboarding")
      else none
]

-- `activeApp`
unfoldable pub active_app : List App → Option Str → Option App
unfolding ◌===◌
active_app apps none = none
active_app apps (some id) = find (λ (a : App). a.id === id) apps

-- `orgApps`
unfoldable pub org_apps : List App → Option Organization → List App
unfolding ◌===◌
org_apps apps org = filter (λ (a : App). elim org [ none ↦ true | some o ↦ a.org_id === o.id ]) apps

-- The second line of the switcher's button: the name of the active organization, if an app is active,
-- whichever organization that app belongs to.
unfoldable pub switcher_detail : List App → Option App → Option Organization → Option Str
unfolding org_apps
switcher_detail apps (some a) org = elim org [ none ↦ none | some o ↦ some o.name ]
switcher_detail apps none org =
    let n = length (org_apps apps org) in
    some (to_decimal n ++ (codes " app" ++ (if n == 1 then [] else codes "s")))
