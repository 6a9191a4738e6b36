-- ===== src/Wallets.antt =====
-- web/app/(console)/apps/[appId]/wallets/page.tsx: the keys of an app, their state at the nodes, and
-- the synchronization of the platform's inventory.
pub mod Given
pub mod Asked
pub mod Found
pub mod Sent
pub mod Order
pub mod Inventory
use signet_platform.Prelude.{
  ℕ, Bool, true, false, ◌&&◌, ltb, ◌==◌, Option, none, some, List, [], ◌∷◌, ◌++◌, if◌then◌else◌,
}
use signet_platform.Prelude.Text.{Str, codes, truthy, is_empty}
use signet_platform.Prelude.Space.{trim}
use signet_platform.Types.GroupView.{GroupNode, GroupView}
use signet_platform.Effects.Failure.{
  Failure, Result, ok, err, or_throw, no_node_endpoint, no_key_session, no_inventory_session,
  syntax_error, thrown,
}
use signet_platform.Effects.Json.{
  Json, null, num, str, arr, obj, nil, Items, Fields, end, field, get_field, with_members,
}
use signet_platform.Effects.World.{
  World, Exec, Event, ◌>>=◌, ◌>>◌, pure, raise, lift, try_catch, await, called,
}
use signet_platform.Effects.Host.{Host}
use signet_platform.SessionKey.{Codec, load_signing_session}
use signet_platform.Api.Query.{Urls, Param, text, missing}
use signet_platform.Api.Endpoints.{Call, text_field}
use signet_platform.Api.AppEndpoints.{AppEndpoint, app_call, send}
use signet_platform.Api.Uploads.{node_proxy}
use signet_platform.Wallets.Given.{keys_member, only_array, is_none}

-- `Key` of web/lib/types.ts, of which the handlers read these members.
pub record Key : Type 0 where
  pub key_id : Str
  pub curve : Str

-- The state that a button asks for.
pub data KeyState : Type 0 where
  enabled disabled : KeyState

pub data Tab : Type 0 where
  every scoped switched_off : Tab

-- The page: the key whose details are shown, the dialog with its text and its error, and the
-- titles of the toasts that say that something succeeded.
pub record Page : Type 0 where
  pub detail : Option Key
  pub sync_open : Bool
  pub raw : Str
  pub sync_error : Option Failure
  pub toasts : List Str

-- `filters` and the query of the list
unfoldable pub key_params : Tab → Str → List (Str × Param)
key_params tab search =
    elim tab [
      | every ↦ []
      | scoped ↦ (codes "scope", text (codes "eip712")) ∷ []
      | switched_off ↦ (codes "status", text (codes "disabled")) ∷ []
    ]
    ++ (codes "q", elim (truthy (some search)) [ none ↦ missing | some q ↦ text q ])
      ∷ (codes "limit", text (codes "200"))
      ∷ []

-- `nodes.find((n) => n.operator?.api_url)?.operator?.api_url`
published : GroupNode → Option Str
published n = elim n.operator [ none ↦ none | some o ↦ truthy o.api_url ]

unfoldable pub first_url : List GroupNode → Option Str
unfolding published
first_url [] = none
first_url (n ∷ nodes) =
    let rest = first_url nodes in elim (published n) [ none ↦ rest | some url ↦ some url ]

unfoldable pub state_path : KeyState → Str
state_path disabled = codes "/v1/keys/disable"
state_path enabled = codes "/v1/keys/enable"

unfoldable pub state_text : KeyState → Str
state_text enabled = codes "enabled"
state_text disabled = codes "disabled"

unfoldable pub state_toast : KeyState → Str
state_toast disabled = codes "Key disabled"
state_toast enabled = codes "Key enabled"

unfoldable pub state_body : Option Str → Key → Json
state_body group_address key = obj (
    field (codes "group_id") (elim group_address [ none ↦ null | some a ↦ str a ])
      (text_field (codes "key_id") key.key_id (text_field (codes "curve") key.curve end)))

abbrev pub update_call : Urls → Str → Key → KeyState → Call
update_call urls app_id key state = app_call urls app_id (
    AppEndpoint.update_key key.curve key.key_id
      (text_field (codes "status") (state_text state) end))

-- `confirms` is the answer to `window.confirm` after so many calls.
-- Whether to go on: the question is asked for an empty inventory of an app that shows keys.
unfoldable pub allowed : (List Event → Bool) → Json → ℕ → Exec Bool
unfolding is_none
allowed confirms keys existing =
    if is_none keys && ltb 0 existing
    then (do
      trace ← λ w. (ok w.trace, w)
      await (called (codes "window.confirm"))
      pure (confirms trace))
    else pure true

-- What the page shows once `setStatus` has ended: it does not read the error of the action.
abbrev pub after_set : KeyState → Page → Result (Unit {0}) × World → World × Page
after_set state page (ok u, w) =
    (w, record page { toasts = page.toasts ++ state_toast state ∷ []; detail = none })
after_set state page (err e, w) = (w, page)

-- `count` reads the text "Synced … keys" from the answer.
abbrev pub after_sync : (Json → Str) → Page → Result (Option Json) × World → World × Page
after_sync count page (ok (some answer), w) = (
  w,
  record page {
    toasts = page.toasts ++ count answer ∷ [];
    raw = [];
    sync_open = false;
    sync_error = none;
  },
)
after_sync count page (ok none, w) = (w, record page { sync_error = none })
after_sync count page (err e, w) = (w, record page { sync_error = some e })

module _ (host : Host) (json : Codec) where
  -- The request that has the group's nodes change a key's state.
  unfoldable pub ask_nodes : Option GroupView → Key → KeyState → Exec Json
  ask_nodes none key state = raise no_node_endpoint
  ask_nodes (some group) key state = do
    url ← lift (or_throw no_node_endpoint (first_url group.nodes))
    found ← load_signing_session json
    session ← lift (or_throw no_key_session found)
    node_proxy host url (state_path state) (some (state_body group.app.group_address key))
        (codes "POST")

  -- The keys as the text of the dialog has them.
  unfoldable pub pasted : Str → Exec Json
  unfolding keys_member
  pasted raw = do
    parsed ← lift (or_throw syntax_error (host.parse_json raw))
    lift (keys_member parsed)

  -- The keys as a node gives them.
  unfoldable pub asked : Option Str → Option Str → Exec Json
  unfolding only_array
  asked (some url) (some group) = do
    found ← load_signing_session json
    session ← lift (or_throw no_inventory_session found)
    result ←
        node_proxy host url (codes "/admin/keys")
          (some (obj (text_field (codes "group_id") group end))) (codes "POST")
    pure (only_array result)
  asked _ _ = raise no_node_endpoint

  unfoldable pub inventory : Str → Option Str → Option Str → Exec Json
  unfolding pasted asked
  inventory raw url group =
      if is_empty (trim raw) then asked (truthy url) (truthy group) else pasted raw

module _ (host : Host) (urls : Urls) where
  -- `keys.refresh()`, whose failure the hook keeps to itself.
  unfoldable pub refresh_keys : Str → List (Str × Param) → Exec (Unit {0})
  refresh_keys app_id params =
      try_catch (send host (app_call urls app_id (AppEndpoint.keys params)) >> pure tt) (pure tt)

  -- The rest of `setStatus`, once the nodes have accepted.
  unfoldable pub note_state : Str → List (Str × Param) → Key → KeyState → Exec (Unit {0})
  unfolding refresh_keys
  note_state app_id params key state =
      send host (update_call urls app_id key state) >> refresh_keys app_id params

  -- The rest of `sync`: the platform's answer, if it was sent the keys.
  unfoldable pub send_keys : Str → Json → Bool → Exec (Option Json)
  send_keys app_id keys true = do
    answer ← send host (app_call urls app_id (AppEndpoint.sync_keys keys))
    counted ← lift (with_members answer)
    pure (some counted)
  send_keys app_id keys false = pure none

module _ (host : Host) (json : Codec) (urls : Urls) where
  unfoldable pub set_steps :
      Str → List (Str × Param) → Option GroupView → Key → KeyState → Exec (Unit {0})
  unfolding ask_nodes note_state
  set_steps app_id params group key state =
      ask_nodes host json group key state >> note_state host urls app_id params key state

  -- `setStatus`
  unfoldable pub set_status :
      Str → List (Str × Param) → Option GroupView → Key → KeyState → World × Page → World × Page
  unfolding set_steps state_toast
  set_status app_id params group key state (w, page) =
      after_set state page (set_steps app_id params group key state w)

module _ (host : Host) (json : Codec) (urls : Urls) (confirms : List Event → Bool) where
  -- The rest of `sync`, once the keys are there.
  unfoldable pub sync_keys : Str → ℕ → Json → Exec (Option Json)
  unfolding allowed send_keys
  sync_keys app_id existing keys =
      allowed confirms keys existing >>= send_keys host urls app_id keys

  unfoldable pub sync_steps : Str → Str → Option Str → Option Str → ℕ → Exec (Option Json)
  unfolding inventory sync_keys
  sync_steps app_id raw url group existing =
      inventory host json raw url group >>= sync_keys app_id existing

  -- `sync`, up to the request that reads the list again
  unfoldable pub sync :
      (Json → Str) → Str → Option Str → Option Str → ℕ → World × Page → World × Page
  unfolding sync_steps
  sync count app_id url group existing (w, page) =
      after_sync count page (sync_steps app_id page.raw url group existing w)
