-- ===== src/Settings.antt =====
-- web/components/console/SettingsForm.tsx: the form of one section of an app's settings, as a
-- machine. Its inputs come in any order: the developer edits and submits, and requests are answered.
pub mod Current
use signet_platform.Prelude.{
  ℕ, ◌+◌, Bool, true, false, not, ◌&&◌, ◌||◌, Option, none, some, List, [], ◌∷◌, ◌++◌,
  if◌then◌else◌,
}
use signet_platform.Effects.Json.{obj, Fields, end, field, set_field}
use signet_platform.Api.Endpoints.{Call}
use signet_platform.Api.Query.{Urls}
use signet_platform.Api.AppEndpoints.{SettingsSection, AppEndpoint, app_call}
use signet_platform.Prelude.Text.{Str}

-- `AppSettings`: the members of each section that the document has.
abbrev pub AppSettings : Type 0
AppSettings = SettingsSection → Option Fields

-- `{ ...base, ...patch }`
unfoldable pub spread : Fields → Fields → Fields
unfolding set_field
spread base end = base
spread base (field k v patch) = spread (set_field k v base) patch

-- What `save` waits for: nothing, the answer of its request, or the answer of `settings.refresh()`
pub data Phase : Type 0 where
  resting saving reloading : Phase

-- `read_failed` is `settings.error`, as a condition, `saved` the requests of `save`, and `toasts` the
-- number of toasts "Saved".
pub record Form : Type 0 where
  pub value : Fields
  pub dirty : Bool
  pub settings : Option AppSettings
  pub read_failed : Bool
  pub phase : Phase
  pub save_failed : Bool
  pub saved : List Call
  pub toasts : ℕ

pub data Input : Type 0 where
  edits : Fields → Input
  submits : Input
  -- the request of `save` is answered: accepted or refused
  save_accepted save_refused : Input
  -- the request of the hook is answered: the one that it makes by itself, or that of `refresh`
  loads : AppSettings → Input
  cannot_load : Input

abbrev pub is_resting : Phase → Bool
is_resting resting = true
is_resting _ = false

module _ (urls : Urls) (app_id : Str) (section : SettingsSection) (defaults : Fields) where
  unfoldable pub opened : Form
  opened = record {
    value = defaults;
    dirty = false;
    settings = none;
    read_failed = false;
    phase = resting;
    save_failed = false;
    saved = [];
    toasts = 0;
  }

  -- The value of the effect that follows a new document.
  unfoldable pub merged : AppSettings → Fields
  unfolding spread
  merged doc = elim (doc section) [ none ↦ defaults | some loaded ↦ spread defaults loaded ]

  -- The rest of `save` after `settings.refresh()`, which does not throw.
  unfoldable pub finish : Form → Form
  finish f = elim f.phase [
    | reloading ↦ record f { phase = resting; dirty = false; toasts = f.toasts + 1 }
    | _ ↦ f
  ]

  unfoldable pub load : AppSettings → Form → Form
  unfolding merged
  load doc f = record f {
    settings = some doc;
    read_failed = false;
    value = merged doc;
    dirty = false;
  }

  -- The form can be used only while it is shown, and its button only while it is enabled.
  unfoldable pub submit : Form → Form
  submit f =
      if not f.read_failed && is_resting f.phase && f.dirty
      then record f {
        phase = saving;
        save_failed = false;
        saved =
            f.saved ++ app_call urls app_id (AppEndpoint.save_settings section (obj f.value)) ∷ [];
      }
      else f

  unfoldable pub step : Input → Form → Form
  unfolding submit load finish spread
  step (edits patch) f =
      if f.read_failed then f else record f { value = spread f.value patch; dirty = true }
  step submits f = submit f
  step save_accepted f = elim f.phase [ saving ↦ record f { phase = reloading } | _ ↦ f ]
  step save_refused f = elim f.phase [
    | saving ↦ record f { phase = resting; save_failed = true }
    | _ ↦ f
  ]
  step (loads doc) f = finish (load doc f)
  step cannot_load f = finish (record f { read_failed = true })

  unfoldable pub steps : List Input → Form → Form
  unfolding step
  steps [] f = f
  steps (i ∷ more) f = steps more (step i f)
