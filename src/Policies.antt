-- ===== src/Policies.antt =====
-- web/app/(console)/apps/[appId]/configuration/policies/page.tsx: the editor of an app's policies, as
-- a machine. The page keeps one editor for all of its policies, which it opens and closes.
pub mod Sent
use signet_platform.Prelude.{
  ℕ, ◌+◌, Bool, true, false, not, ◌&&◌, Option, none, some, List, [], ◌∷◌, ◌++◌, if◌then◌else◌,
}
use signet_platform.Prelude.Text.{Str, codes, is_empty}
use signet_platform.Prelude.Space.{trim}
use signet_platform.Effects.Failure.{Failure, not_json}
use signet_platform.Effects.Json.{Json, bool, obj, Fields, end, field}
use signet_platform.Api.Query.{Urls}
use signet_platform.Api.Endpoints.{Call, text_field}
use signet_platform.Api.AppEndpoints.{AppEndpoint, app_call}

pub data PolicyKind : Type 0 where
  key_scope spend_limit allowlist denylist rate_limit : PolicyKind

pub data EnforcedBy : Type 0 where
  node smart_account advisory : EnforcedBy

-- `Policy` of web/lib/types.ts
pub record Policy : Type 0 where
  pub id : Str
  pub name : Str
  pub kind : PolicyKind
  pub enforced_by : EnforcedBy
  pub config : Fields
  pub enabled : Bool
  pub created_at : Str
  pub updated_at : Str

unfoldable pub kind_text : PolicyKind → Str
kind_text key_scope = codes "key_scope"
kind_text spend_limit = codes "spend_limit"
kind_text allowlist = codes "allowlist"
kind_text denylist = codes "denylist"
kind_text rate_limit = codes "rate_limit"

-- `KINDS`: who enforces a kind.
unfoldable pub enforced_by : PolicyKind → EnforcedBy
enforced_by key_scope = node
enforced_by allowlist = smart_account
enforced_by denylist = smart_account
enforced_by spend_limit = advisory
enforced_by rate_limit = advisory

-- `editing` is the policy that the page hands to the editor; `name`, `kind` and `config` are the
-- editor's own, and `saves` the requests that it has made.
pub record Editor : Type 0 where
  pub open_now : Bool
  pub editing : Option Policy
  pub name : Str
  pub kind : PolicyKind
  pub config : Str
  pub pending : Bool
  pub error : Option Failure
  pub saves : List Call
  pub toasts : ℕ

pub data Input : Type 0 where
  -- "New policy", "Create a policy" on the empty page, "Edit" and "Cancel"
  new_policy create_policy cancel : Input
  edit : Policy → Input
  types_name types_config : Str → Input
  picks : PolicyKind → Input
  clicks_save save_accepted : Input
  save_refused : Failure → Input

-- The editor when the page opens: its fields are set now, while there is no policy, and not again.
unfoldable pub mounted : Editor
mounted = record {
  open_now = false;
  editing = none;
  name = [];
  kind = key_scope;
  config = codes "{}";
  pending = false;
  error = none;
  saves = [];
  toasts = 0;
}

unfoldable pub policy_fields : Str → PolicyKind → Json → Fields
unfolding kind_text
policy_fields name kind config = text_field (codes "name") name (
    text_field (codes "kind") (kind_text kind)
      (field (codes "config") config (field (codes "enabled") (bool true) end)))

abbrev pub is_new : Option Policy → Bool
is_new none = true
is_new (some p) = false

module _ (urls : Urls) (app_id : Str) (parse_json : Str → Option Json) where
  -- `config || "{}"`
  unfoldable pub parsed_config : Str → Option Json
  parsed_config config = parse_json (if is_empty config then codes "{}" else config)

  abbrev pub save_call : Str → PolicyKind → Json → Call
  save_call name kind config =
      app_call urls app_id (AppEndpoint.save_policy (policy_fields name kind config))

  -- `save`, up to its request; the button wants a name.
  unfoldable pub save : Editor → Editor
  unfolding parsed_config trim
  save e =
      if not e.pending && not (is_empty (trim e.name))
      then elim (parsed_config e.config) [
        | none ↦ record e { error = some not_json }
        | some j ↦ record e {
          pending = true;
          error = none;
          saves = e.saves ++ save_call (trim e.name) e.kind j ∷ [];
        }
      ]
      else e

  -- Only the field for the name is closed while a policy is edited.
  unfoldable pub step : Input → Editor → Editor
  unfolding save
  step new_policy e = record e { editing = none; open_now = true }
  step create_policy e = record e { open_now = true }
  step cancel e = record e { open_now = false }
  step (edit p) e = record e { editing = some p; open_now = true }
  step (types_name s) e = if is_new e.editing then record e { name = s } else e
  step (types_config s) e = record e { config = s }
  step (picks k) e = record e { kind = k }
  step clicks_save e = save e
  step save_accepted e =
      if e.pending then record e { pending = false; open_now = false; toasts = e.toasts + 1 } else e
  step (save_refused x) e = if e.pending then record e { pending = false; error = some x } else e

  unfoldable pub steps : List Input → Editor → Editor
  unfolding step
  steps [] e = e
  steps (i ∷ more) e = steps more (step i e)
