-- ===== src/Tests/Settings.antt =====
-- Tests of the form of a section of the settings.
use signet_platform.Prelude.{◌≡◌, refl, true, false, none, some, List, [], ◌∷◌}
use signet_platform.Prelude.Text.{codes}
use signet_platform.Effects.Json.{bool, Fields, end, field, get_field}
use signet_platform.Api.AppEndpoints.{login_methods}
use signet_platform.Settings.{
  Input, edits, submits, save_accepted, loads, AppSettings, opened, steps, Form,
}
use signet_platform.Settings.Current.{IsCurrent, steps-IsCurrent}
use signet_platform.Tests.GroupPage.{urls}

abbrev wants : Fields
wants = field (codes "email") (bool true) end

abbrev document : AppSettings
document s = some wants

-- The form is loaded, edited and saved; it is edited again while the request is under way.
abbrev history : List Input
history =
    loads document
    ∷ edits wants
    ∷ submits
    ∷ edits (field (codes "sms") (bool true) end)
    ∷ save_accepted
    ∷ loads document
    ∷ []

steps-IsCurrent_example :
    IsCurrent urls (codes "a1") login_methods end (
      steps urls
        (codes "a1")
        login_methods
        end
        history
        (opened urls (codes "a1") login_methods end))
steps-IsCurrent_example = steps-IsCurrent urls (codes "a1") login_methods end history

abbrev ended : Form
ended =
    steps urls (codes "a1") login_methods end history (opened urls (codes "a1") login_methods end)

-- The later edit is lost, and the form says that everything is saved.
lost_edit : get_field (codes "sms") ended.value ≡ none
unfolding get_field steps opened
lost_edit = refl

said_saved : ended.dirty ≡ false
unfolding steps opened
said_saved = refl
