-- ===== src/GroupPage/Calls.antt =====
-- web/app/(console)/apps/[appId]/group/page.tsx: `call`, behind every button that changes the group
-- on the chain, and `sync`.
use signet_platform.Prelude.{Bool, true, false, Option, none, some, List, [], ◌∷◌, ◌++◌}
use signet_platform.Prelude.Text.{Str, codes, truthy}
use signet_platform.Types.Account.{User, NetworkConfig}
use signet_platform.Types.GroupView.{App, Environment, development, production}
use signet_platform.Effects.Failure.{Failure, Result, ok, err, or_throw, no_group}
use signet_platform.Effects.World.{World, Exec, ◌>>=◌, ◌>>◌, pure, lift, try_catch}
use signet_platform.Api.Query.{Urls}
use signet_platform.Api.AppEndpoints.{AppEndpoint, app_call, send}
use signet_platform.Abi.{GroupFunction, function_name}
use signet_platform.Onchain.Transport.{Transport}
use signet_platform.Onchain.Call.{Console, GroupCall, submit_group_call}
use signet_platform.Onchain.Body.{proof_fields}

-- `toast.success(message)` and `toast.error(message, detail)`
pub data Toast : Type 0 where
  success : Str → Toast
  error : Str → Str → Toast

pub record Page : Type 0 where
  pub pending_action : Option Str
  pub toasts : List Toast

abbrev pub toasted : Page → Toast → Page
toasted page t = record page { toasts = page.toasts ++ t ∷ [] }

abbrev pub is_development : Environment → Bool
is_development development = true
is_development production = false

-- `console` is what a call on chain uses; `message_of` the message of an error.
module _ (c : Console) (urls : Urls) (message_of : Failure → Str) where
  open c use {host, viem}
  open viem use {Args}

  -- `group.refresh()`, whose failure the hook keeps to itself.
  unfoldable pub refresh_group : Str → Exec (Unit {0})
  refresh_group app_id =
      try_catch (send host (app_call urls app_id AppEndpoint.group) >> pure tt) (pure tt)

  abbrev pub request_of : NetworkConfig → User → App → GroupFunction → Args → GroupCall c
  request_of network user app f args = record {
    network = network;
    user = user;
    group_address = app.group_address;
    function_name = f;
    args = args;
    sponsored = some (is_development app.environment);
  }

  -- The `try` of `call`.
  unfoldable pub call_steps : Str → Transport → GroupCall c → Exec (Unit {0})
  unfolding refresh_group function_name proof_fields
  call_steps app_id transport g = do
    submitted ← submit_group_call c transport g
    proof ← lift (or_throw no_group submitted)
    send host (
        app_call urls app_id
          (AppEndpoint.execute_group_call (proof_fields proof) (function_name g.function_name)))
    refresh_group app_id

  -- What the page shows once the `try` has ended.
  abbrev pub after_call : Str → Page → Result (Unit {0}) × World → World × Page
  after_call label page (ok u, w) =
      (w, record (toasted page (success (label ++ codes " confirmed"))) { pending_action = none })
  after_call label page (err e, w) = (
    w,
    record (toasted page (error (label ++ codes " failed") (message_of e))) {
      pending_action = none;
    },
  )

  unfoldable pub call :
      Option NetworkConfig
      → Option User
      → Option App
      → Str
      → Transport
      → Str
      → GroupFunction
      → Args
      → World × Page
      → World × Page
  unfolding call_steps
  call (some network) (some user) (some app) app_id transport label f args (w, page) =
      elim (truthy app.group_address) [
        | none ↦ (w, page)
        | some group ↦
            after_call label page
              (call_steps app_id transport (request_of network user app f args) w)
      ]
  call _ _ _ app_id transport label f args (w, page) = (w, page)
