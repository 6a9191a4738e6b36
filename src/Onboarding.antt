-- ===== src/Onboarding.antt =====
-- web/app/(console)/onboarding/page.tsx: the page that creates an organization, with what `refresh`
-- and `setActiveOrg` of web/providers/SessionProvider.tsx do to the console.
pub mod Ready
use signet_platform.Prelude.{Option, none, some, ◌++◌, if◌then◌else◌}
use signet_platform.Prelude.Text.{Str, codes, is_empty}
use signet_platform.Prelude.Space.{trim}
use signet_platform.Types.Account.{Organization, Session}
use signet_platform.Effects.Failure.{Failure, Result, ok, err}
use signet_platform.Effects.Json.{Json}
use signet_platform.Effects.World.{World}
use signet_platform.Effects.Host.{Host}
use signet_platform.Api.Query.{Urls}
use signet_platform.Api.Endpoints.{Call, Endpoint, call_of}
use signet_platform.Api.AppEndpoints.{send}
use signet_platform.Console.{Console, apply, refused, set_active_org}
use signet_platform.Console.Refresh.{is_unauthorized, settled}

-- The tab, the console, the error and the title of the toast that the page shows, and where it has
-- gone.
pub record Visit : Type 0 where
  pub tab : World
  pub console : Console
  pub error : Option Failure
  pub toast : Option Str
  pub gone_to : Option Str

-- What the console takes an answer for.
pub record Answers : Type 0 where
  pub organization_of : Json → Organization
  pub session_of : Json → Session

-- `refresh`, what it shows
unfoldable pub after_refresh : Answers → Result Json → Console → Console
unfolding is_unauthorized
after_refresh a (ok answer) c = apply (a.session_of answer) c
after_refresh a (err e) c = if is_unauthorized e then refused c else c

-- `email.trim() || undefined`
abbrev pub given : Str → Option Str
given email = if is_empty (trim email) then none else some (trim email)

unfoldable pub create_org_call : Urls → Str → Str → Call
create_org_call urls name email = call_of urls (Endpoint.create_org (trim name) (given email))

-- The rest of `create`, once `refresh` has ended.
unfoldable pub welcome : Organization → Visit → Result (Unit {0}) × World → Visit
welcome org v (err e, w) = record v { tab = w; error = some e }
welcome org v (ok u, w) = record v {
  tab = w;
  console = set_active_org org.id v.console;
  error = none;
  toast = some (org.name ++ codes " is ready");
  gone_to = some (codes "/apps/new");
}

module _ (host : Host) (urls : Urls) (answers : Answers) where
  unfoldable pub read_session : Organization → Visit → Result Json × World → Visit
  unfolding after_refresh welcome
  read_session org v (r, w) =
      welcome org (record v { console = after_refresh answers r v.console }) (settled r w)

  unfoldable pub after_creation : Visit → Result Json × World → Visit
  unfolding read_session
  after_creation v (err e, w) = record v { tab = w; error = some e }
  after_creation v (ok answer, w) =
      read_session (answers.organization_of answer) v (send host (call_of urls Endpoint.me) w)

  -- The `onSubmit` of the form
  unfoldable pub create_org : Str → Str → Visit → Visit
  unfolding create_org_call after_creation trim
  create_org name email v =
      if is_empty (trim name)
      then v
      else after_creation v (send host (create_org_call urls name email) v.tab)
