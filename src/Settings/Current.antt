-- ===== src/Settings/Current.antt =====
-- web/components/console/SettingsForm.tsx: what a form without unsaved changes shows.
use signet_platform.Prelude.{
  All, All-append, Bool-cases, ◌≡◌, refl, inl, inr, false, ◌&&◌, not, Option, none, some, List, [],
  ◌∷◌, arith,
}
use signet_platform.Prelude.Text.{Str}
use signet_platform.Effects.Json.{Fields, obj}
use signet_platform.Api.Query.{Urls}
use signet_platform.Api.AppEndpoints.{SettingsSection, AppEndpoint, app_call}
use signet_platform.Api.Endpoints.{Call}
use signet_platform.Settings.{
  AppSettings, Form, Input, edits, submits, save_accepted, save_refused, loads, cannot_load, opened,
  merged, step, steps, submit, load, finish, is_resting,
}

module _ (urls : Urls) (app_id : Str) (section : SettingsSection) (defaults : Fields) where
  -- What the platform has given for the section, or the defaults before it has answered.
  abbrev given : Option AppSettings → Fields
  given none = defaults
  given (some doc) = merged urls app_id section defaults doc

  -- A request that saves this section, and no other.
  abbrev pub IsOwn : Call → Type 0
  IsOwn c =
      (value : Fields) × (c ≡ app_call urls app_id (AppEndpoint.save_settings section (obj value)))

  pub record IsCurrent (f : Form) : Type 0 where
    pub current : f.read_failed ≡ false → f.dirty ≡ false → f.value ≡ given f.settings
    pub own : All IsOwn f.saved

  submit-IsCurrent : (f : Form) → IsCurrent f → IsCurrent (submit urls app_id section defaults f)
  unfolding submit
  submit-IsCurrent f h = elim (Bool-cases (not f.read_failed && is_resting f.phase && f.dirty)) [
    | inr off ↦ rw (off, submit) h
    | inl on ↦
        rw (on, submit)
          (record {
            current = λ shown clean. absurd (ground arith);
            own = All-append IsOwn f.saved _ h.own ((f.value, refl), tt);
          })
  ]

  step-IsCurrent :
      (i : Input) (f : Form) → IsCurrent f → IsCurrent (step urls app_id section defaults i f)
  unfolding step load finish
  step-IsCurrent (edits patch) f h = ground arith
  step-IsCurrent submits f h = submit-IsCurrent f h
  step-IsCurrent save_accepted f h = ground arith
  step-IsCurrent save_refused f h = ground arith
  step-IsCurrent (loads doc) f h = ground arith
  step-IsCurrent cannot_load f h = ground arith

  keeps-IsCurrent :
      (is : List Input) (f : Form)
      → IsCurrent f
      → IsCurrent (steps urls app_id section defaults is f)
  unfolding steps
  keeps-IsCurrent [] f h = h
  keeps-IsCurrent (i ∷ is) f h =
      keeps-IsCurrent is (step urls app_id section defaults i f) (step-IsCurrent i f h)

  -- Whatever happens to a form, in any order: while it is shown and says that nothing is unsaved, it
  -- shows what the platform gave last for its section over the defaults, or the defaults before the
  -- platform has answered; and every request that it has made saves its own section.
  pub steps-IsCurrent :
      (is : List Input)
      → IsCurrent (steps urls app_id section defaults is (opened urls app_id section defaults))
  unfolding opened
  steps-IsCurrent is =
      keeps-IsCurrent is (opened urls app_id section defaults)
        (record { current = λ shown clean. refl; own = tt })
