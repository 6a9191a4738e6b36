-- ===== src/Wizard.antt =====
-- web/app/(console)/apps/new/page.tsx: the wizard that creates an app and its signing group.
pub mod Inputs
pub mod Bounds
pub mod Ready
pub mod Flow
pub mod Submit
pub mod Deploy
pub mod Deployed
use signet_platform.Prelude.{
  ℕ, ◌+◌, ◌-◌, min, max, Bool, true, false, not, ◌&&◌, ◌||◌, Option, none, some, List, [], ◌∷◌,
  ◌++◌, if◌then◌else◌, length, filter, any, all, head?, drop, ltb, leb, ◌==◌,
}
use signet_platform.Prelude.Text.{Str, codes, ◌===◌, is_empty, starts_with, slice_from}
use signet_platform.Prelude.Space.{trim}
use signet_platform.Types.Group.{NodeOperator, Category}

pub data Step : Type 0 where
  details operators login review deploy : Step

pub data Mode : Type 0 where
  creating attaching : Mode

abbrev step_code : Step → ℕ
step_code details = 0
step_code operators = 1
step_code login = 2
step_code review = 3
step_code deploy = 4

unfoldable pub same_step : Step → Step → Bool
same_step s t = step_code s == step_code t

-- `DEPLOY_STEPS` and `ATTACH_STEPS`
abbrev pub steps_of : Mode → List Step
steps_of creating = details ∷ operators ∷ login ∷ review ∷ deploy ∷ []
steps_of attaching = details ∷ review ∷ deploy ∷ []

-- The page's state, as far as its steps depend on it. `busy` is whether a stage is shown.
pub record Wizard : Type 0 where
  pub step : Step
  pub mode : Mode
  pub name : Str
  pub selected : List Str
  pub threshold : ℕ
  pub manual_address : Str
  pub busy : Bool

unfoldable pub initial : Wizard
initial = record {
  step = details;
  mode = creating;
  name = [];
  selected = [];
  threshold = 2;
  manual_address = [];
  busy = false;
}

-- `prev.includes(address)`
unfoldable pub includes : List Str → Str → Bool
unfolding ◌===◌
includes [] a = false
includes (b ∷ bs) a = b === a || includes bs a

unfoldable pub toggled : List Str → Str → List Str
unfolding includes ◌===◌
toggled prev a = if includes prev a then filter (λ b. not (b === a)) prev else prev ++ a ∷ []

-- `Math.min(Math.max(t, 1), Math.max(next.length, 1))`
unfoldable pub clamp : ℕ → ℕ → ℕ
clamp t count = min (max t 1) (max count 1)

unfoldable pub toggle : Str → Wizard → Wizard
unfolding toggled clamp
toggle a w =
    let next = toggled w.selected a in
    record w { selected = next; threshold = clamp w.threshold (length next) }

-- The effect on a change of the operators that are offered.
unfoldable pub restrict : List NodeOperator → Wizard → Wizard
unfolding includes ◌===◌
restrict offered w = record w {
  selected = filter (λ a. any (λ (o : NodeOperator). o.address === a) offered) w.selected;
}

-- The range input of `ThresholdPicker`, which is shown for more than one selected operator.
unfoldable pub slide : ℕ → Wizard → Wizard
slide t w =
    if ltb 1 (length w.selected) && (leb 1 t && leb t (length w.selected))
    then record w { threshold = t }
    else w

-- `minOperators`, by `restrictedToFirstParty`, which holds in the development environment.
abbrev pub min_operators : ℕ
min_operators = 1

unfoldable pub can_continue : Wizard → Bool
unfolding trim
can_continue w = elim w.step [
  | details ↦ not (is_empty (trim w.name))
  | operators ↦
      leb min_operators (length w.selected)
      && (leb 1 w.threshold && leb w.threshold (length w.selected))
  | _ ↦ true
]

-- `steps.findIndex((s) => s.id === step)`, none for -1
unfoldable pub index_of : Step → List Step → Option ℕ
unfolding same_step
index_of s [] = none
index_of s (t ∷ ts) =
    if same_step t s then some 0 else elim (index_of s ts) [ none ↦ none | some i ↦ some (i + 1) ]

unfoldable pub step_index : Wizard → Option ℕ
unfolding index_of
step_index w = index_of w.step (steps_of w.mode)

-- `setStep(steps[i].id)`; reading past the end throws, which leaves the page as it is.
unfoldable pub go_to : ℕ → Wizard → Wizard
go_to i w = elim (head? (drop i (steps_of w.mode))) [ none ↦ w | some s ↦ record w { step = s } ]

-- The button "Continue", shown before the review and enabled by `canContinue`
unfoldable pub continue_clicked : Wizard → Wizard
unfolding can_continue step_index go_to same_step
continue_clicked w =
    if same_step w.step deploy || same_step w.step review || not (can_continue w)
    then w
    else elim (step_index w) [ none ↦ go_to 0 w | some i ↦ go_to (i + 1) w ]

-- The button "Back", shown before the deployment and disabled on the first step
unfoldable pub back_clicked : Wizard → Wizard
unfolding step_index go_to same_step
back_clicked w = if same_step w.step deploy then w else elim (step_index w) [
  | none ↦ go_to 0 w
  | some i ↦ if i == 0 then w else go_to (max (i - 1) 0) w
]

-- The entry of a step in the page's header, disabled past the current step and while a stage runs
unfoldable pub header_on : ℕ → Wizard → Option ℕ → Wizard
unfolding go_to
header_on i w none = w
header_on i w (some current) = if leb i current && not w.busy then go_to i w else w

unfoldable pub header_clicked : ℕ → Wizard → Wizard
unfolding header_on step_index
header_clicked i w = header_on i w (step_index w)

-- The choice of a mode, on the first step, and the effect that follows it
unfoldable pub settle_step : Wizard → Wizard
unfolding step_index go_to
settle_step w = elim (step_index w) [ none ↦ go_to 0 w | some i ↦ w ]

unfoldable pub choose_mode : Mode → Wizard → Wizard
unfolding settle_step
choose_mode m w = elim w.step [ details ↦ settle_step (record w { mode = m }) | _ ↦ w ]

-- `/^0x[0-9a-fA-F]{40}$/`
unfoldable pub is_hex_digit : ℕ → Bool
is_hex_digit c = (leb 48 c && leb c 57) || (leb 97 c && leb c 102) || (leb 65 c && leb c 70)

unfoldable pub is_address : Str → Bool
unfolding is_hex_digit starts_with
is_address s =
    starts_with s (codes "0x")
    && (length (slice_from s 2) == 40 && all is_hex_digit (slice_from s 2))

-- The button of the review, by `canSign` of the tab
unfoldable pub can_submit : Bool → Wizard → Bool
unfolding is_address trim
can_submit can_sign w = elim w.mode [
  | attaching ↦ is_address (trim w.manual_address)
  | creating ↦ can_sign
]

-- The button of the review: it moves to the last step, and says what `deploy` is called with.
unfoldable pub submit_clicked : Bool → Wizard → Wizard × Option (Option Str)
unfolding can_submit trim same_step
submit_clicked can_sign w =
    if same_step w.step review && can_submit can_sign w
    then (
      record w { step = deploy },
      some (elim w.mode [ attaching ↦ some (trim w.manual_address) | creating ↦ none ]),
    )
    else (w, none)
