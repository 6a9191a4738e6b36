-- ===== src/Wizard/Inputs.antt =====
-- web/app/(console)/apps/new/page.tsx: the inputs of the wizard and the page after them.
use signet_platform.Prelude.{ℕ, Bool, List, [], ◌∷◌, if◌then◌else◌}
use signet_platform.Prelude.Text.{Str}
use signet_platform.Wizard.{
  details, operators, review, deploy, Mode, Wizard, toggle, slide, continue_clicked, back_clicked,
  header_clicked, choose_mode, submit_clicked, same_step,
}

-- What the developer can do on the page, and the stages of a deployment that begin and end.
pub data Input : Type 0 where
  name_typed address_typed node_toggled : Str → Input
  threshold_slid header : ℕ → Input
  mode_chosen : Mode → Input
  continued went_back back_to_review : Input
  submitted staged : Bool → Input

-- The page after one input; a control acts on the step that shows it.
unfoldable pub next : Input → Wizard → Wizard
unfolding toggle slide continue_clicked back_clicked header_clicked choose_mode submit_clicked
    same_step
next (name_typed s) w = if same_step w.step details then record w { name = s } else w
next (address_typed s) w = record w { manual_address = s }
next (node_toggled a) w = if same_step w.step operators then toggle a w else w
next (threshold_slid t) w = if same_step w.step operators then slide t w else w
next (header i) w = header_clicked i w
next (mode_chosen m) w = choose_mode m w
next continued w = continue_clicked w
next went_back w = back_clicked w
next back_to_review w = if same_step w.step deploy then record w { step = review } else w
next (submitted can_sign) w = (submit_clicked can_sign w).0
next (staged b) w = record w { busy = b }

-- The page after a sequence of inputs.
unfoldable pub run : List Input → Wizard → Wizard
unfolding next
run [] w = w
run (i ∷ more) w = run more (next i w)
