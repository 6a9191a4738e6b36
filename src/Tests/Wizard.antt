-- ===== src/Tests/Wizard.antt =====
-- Tests of the wizard.
use signet_platform.Prelude.{◌≡◌, refl, true, false, none, some, [], ◌∷◌, List}
use signet_platform.Prelude.Text.{Str, codes}
use signet_platform.Wizard.{Wizard, initial, creating, review, deploy, submit_clicked}
use signet_platform.Wizard.Inputs.{Input, name_typed, node_toggled, continued, run}
use signet_platform.Wizard.Submit.{IsSubmittable, run-IsSubmittable}

abbrev a : Str
a = codes "0x01"

abbrev b : Str
b = codes "0x02"

-- A name, two nodes of which one is taken out again, and the steps up to the review.
abbrev walk : List Input
walk =
    name_typed (codes "Acme")
    ∷ continued
    ∷ node_toggled a
    ∷ node_toggled b
    ∷ node_toggled a
    ∷ continued
    ∷ continued
    ∷ []

abbrev reviewed : Wizard
reviewed = record {
  step = review;
  mode = creating;
  name = codes "Acme";
  selected = b ∷ [];
  threshold = 1;
  manual_address = [];
  busy = false;
}

walked : run walk initial ≡ reviewed
unfolding run initial
walked = refl

submitted_walk :
    submit_clicked true (run walk initial) ≡ (record reviewed { step = deploy }, some none)
unfolding run initial submit_clicked
submitted_walk = refl

run-IsSubmittable_example : IsSubmittable true (run walk initial) none
run-IsSubmittable_example =
    run-IsSubmittable walk true (record reviewed { step = deploy }) none submitted_walk
