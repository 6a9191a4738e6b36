-- ===== src/Webhooks.antt =====
-- web/app/(console)/apps/[appId]/settings/webhooks/page.tsx: the page of an app's webhooks, as a
-- machine, with the dialog that adds an endpoint and the one that shows its secret. The action that
-- tests an endpoint and the one that deletes it are in Actions/Plans.antt.
pub mod Subscribed
use signet_platform.Prelude.{
  ℕ, ◌+◌, Bool, true, false, not, ◌&&◌, Option, none, some, List, [], ◌∷◌, ◌++◌, filter,
  if◌then◌else◌,
}
use signet_platform.Prelude.Text.{Str, codes, is_empty, ◌===◌}
use signet_platform.Prelude.Space.{trim}
use signet_platform.Effects.Failure.{Failure}
use signet_platform.Effects.Json.{Json, arr, items_of, Fields, end, field}
use signet_platform.Api.Query.{Urls}
use signet_platform.Api.Endpoints.{Call, text_field}
use signet_platform.Api.AppEndpoints.{AppEndpoint, app_call}
use signet_platform.Wizard.{includes}

-- `url` and `selected` are what the dialog holds, `creations` the requests that create an endpoint,
-- and `rereads` how often the list has been read again after one.
pub record Page : Type 0 where
  pub open_now : Bool
  pub url : Str
  pub selected : List Str
  pub pending : Bool
  pub error : Option Failure
  pub secret : Option Str
  pub creations : List Call
  pub rereads : ℕ

pub data Input : Type 0 where
  add_endpoint cancel : Input
  types_url : Str → Input
  -- A click on an event's box, which then shows the contrary of what it showed.
  clicks_box : Str → Input
  clicks_create : Input
  -- The platform's answer, with the secret of the endpoint, if it has one.
  created : Option Str → Input
  refused : Failure → Input
  has_saved : Input

unfoldable pub opened : Page
opened = record {
  open_now = false;
  url = [];
  selected = [];
  pending = false;
  error = none;
  secret = none;
  creations = [];
  rereads = 0;
}

-- The `onChange` of an event's box, whose state the browser hands it
unfoldable pub ticked : Bool → Str → List Str → List Str
unfolding ◌===◌
ticked true e prev = prev ++ e ∷ []
ticked false e prev = filter (λ x. not (x === e)) prev

unfoldable pub webhook_fields : Str → List Str → Fields
webhook_fields url events =
    text_field (codes "url") url (field (codes "events") (arr (items_of events)) end)

module _ (urls : Urls) (app_id : Str) where
  unfoldable pub creation : Str → List Str → Call
  unfolding webhook_fields
  creation url events =
      app_call urls app_id (AppEndpoint.create_webhook (webhook_fields (trim url) events))

  -- `create`, up to its request; the button wants an address.
  unfoldable pub create : Page → Page
  unfolding trim
  create p =
      if not p.pending && not (is_empty (trim p.url))
      then record p {
        pending = true;
        error = none;
        creations = p.creations ++ creation p.url p.selected ∷ [];
      }
      else p

  -- The rest of `create`, with what the page does of it.
  unfoldable pub conclude : Option Str → Page → Page
  conclude secret p = record p {
    url = [];
    selected = [];
    pending = false;
    open_now = false;
    secret = some (elim secret [ none ↦ [] | some s ↦ s ]);
    rereads = p.rereads + 1;
  }

  unfoldable pub step : Input → Page → Page
  unfolding create conclude ticked includes
  step add_endpoint p = record p { open_now = true }
  step cancel p = record p { open_now = false }
  step (types_url s) p = record p { url = s }
  step (clicks_box e) p = record p { selected = ticked (not (includes p.selected e)) e p.selected }
  step clicks_create p = create p
  step (created secret) p = if p.pending then conclude secret p else p
  step (refused x) p = if p.pending then record p { pending = false; error = some x } else p
  step has_saved p = record p { secret = none }

  unfoldable pub steps : List Input → Page → Page
  unfolding step
  steps [] p = p
  steps (i ∷ more) p = steps more (step i p)
