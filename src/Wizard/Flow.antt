-- ===== src/Wizard/Flow.antt =====
-- web/app/(console)/apps/new/page.tsx: what holds on each step of the wizard, whatever the inputs.
use signet_platform.Prelude.{
  ℕ, zero, suc, leb, ltb, ◌≡◌, refl, Bool, true, false, not, ◌&&◌, Option, none, some, List, [],
  ◌∷◌, if◌then◌else◌, length, arith, Bool-cases, inl, inr,
}
use signet_platform.Prelude.Text.{Str}
use signet_platform.Wizard.{
  Step, details, operators, login, review, deploy, Mode, creating, attaching, Wizard, initial,
  slide, can_continue, continue_clicked, back_clicked, header_clicked, header_on, choose_mode,
  settle_step, submit_clicked, can_submit, step_index, go_to, index_of, same_step,
}
use signet_platform.Wizard.Inputs.{
  Input, name_typed, address_typed, node_toggled, threshold_slid, header, mode_chosen, continued,
  went_back, back_to_review, submitted, staged, next, run,
}
use signet_platform.Wizard.Ready.{
  IsReadyAt, IsReadyFor, IsReady, on, IsReadyAt-earlier, go_to-IsReady,
}

-- A readiness that is kept when an enabled button is clicked.
kept_if :
    (b : Bool) (v w : Wizard) → IsReady w → (b ≡ false → IsReady v) → IsReady (if b then w else v)
kept_if true v w h k = h
kept_if false v w h k = k refl

continue-IsReady :
    (s : Step) (m : Mode) (w : Wizard) → IsReady (on s m w) → IsReady (continue_clicked (on s m w))
unfolding continue_clicked can_continue step_index go_to same_step index_of IsReady
continue-IsReady details creating w h =
    kept_if (not (can_continue (on details creating w))) (on operators creating w)
      (on details creating w) tt (λ b. ground arith)
continue-IsReady details attaching w h =
    kept_if (not (can_continue (on details attaching w))) (on review attaching w)
      (on details attaching w) tt (λ b. ground arith)
continue-IsReady operators creating w h =
    kept_if (not (can_continue (on operators creating w))) (on login creating w)
      (on operators creating w) h (λ b. ground arith)
continue-IsReady login creating w h = h
continue-IsReady operators attaching w h = absurd h
continue-IsReady login attaching w h = absurd h
continue-IsReady review m w h = h
continue-IsReady deploy m w h = h

back-IsReady :
    (s : Step) (m : Mode) (w : Wizard) → IsReady (on s m w) → IsReady (back_clicked (on s m w))
unfolding back_clicked step_index go_to same_step index_of IsReady
back-IsReady details creating w h = tt
back-IsReady details attaching w h = tt
back-IsReady operators creating w h = tt
back-IsReady login creating w h = h.0
back-IsReady operators attaching w h = absurd h
back-IsReady login attaching w h = absurd h
back-IsReady review creating w h = h
back-IsReady review attaching w h = tt
back-IsReady deploy m w h = h

header_on-IsReady :
    (i : ℕ) (s : Step) (m : Mode) (w : Wizard) (c : Option ℕ)
    → IsReadyFor m c (on s m w)
    → IsReady (on s m w)
    → IsReady (header_on i (on s m w) c)
unfolding header_on
header_on-IsReady i s m w none h k = k
header_on-IsReady i s m w (some current) h k = elim (Bool-cases (leb i current && not w.busy)) [
  | inl b ↦
      simp b (go_to-IsReady i s m w (IsReadyAt-earlier m i current (on s m w) (ground arith) h) k)
  | inr b ↦ simp b k
]

header-IsReady :
    (i : ℕ) (s : Step) (m : Mode) (w : Wizard)
    → IsReady (on s m w)
    → IsReady (header_clicked i (on s m w))
unfolding header_clicked IsReady
header-IsReady i s m w h = header_on-IsReady i s m w (step_index (on s m w)) h h

choose_mode-IsReady :
    (s : Step) (m n : Mode) (w : Wizard) → IsReady (on s m w) → IsReady (choose_mode n (on s m w))
unfolding choose_mode settle_step step_index index_of same_step IsReady
choose_mode-IsReady details m creating w h = tt
choose_mode-IsReady details m attaching w h = tt
choose_mode-IsReady operators m n w h = h
choose_mode-IsReady login m n w h = h
choose_mode-IsReady review m n w h = h
choose_mode-IsReady deploy m n w h = h

IsReadyAt-kept :
    (m : Mode) (i : ℕ) (w : Wizard) (a : Str) (b : Bool)
    → IsReadyAt m i w
    → IsReadyAt m i (record w { manual_address = a; busy = b })
IsReadyAt-kept m zero w a b h = tt
IsReadyAt-kept m (suc zero) w a b h = h
IsReadyAt-kept creating (suc (suc i)) w a b h = h
IsReadyAt-kept attaching (suc (suc i)) w a b h = h

ready_kept :
    (c : Option ℕ) (m : Mode) (w : Wizard) (a : Str) (b : Bool)
    → IsReadyFor m c w
    → IsReadyFor m c (record w { manual_address = a; busy = b })
ready_kept none m w a b h = h
ready_kept (some i) m w a b h = IsReadyAt-kept m i w a b h

-- The address and the stage are nothing that a step rests on.
IsReady-kept :
    (w : Wizard) (a : Str) (b : Bool)
    → IsReady w
    → IsReady (record w { manual_address = a; busy = b })
unfolding IsReady step_index
IsReady-kept w a b h = ready_kept (step_index w) w.mode w a b h

deploy-IsReady : (m : Mode) (w : Wizard) → IsReady (on review m w) → IsReady (on deploy m w)
unfolding IsReady step_index index_of same_step
deploy-IsReady creating w h = h
deploy-IsReady attaching w h = h

IsReady-if :
    (b : Bool) (v w : Wizard) (x y : Option (Option Str))
    → IsReady v
    → IsReady w
    → IsReady (if◌then◌else◌ {A = Wizard × Option (Option Str)} b (v, x) (w, y)).0
IsReady-if true v w x y h k = h
IsReady-if false v w x y h k = k

submit-IsReady :
    (m : Mode) (c : Bool) (w : Wizard)
    → IsReady (on review m w)
    → IsReady (submit_clicked c (on review m w)).0
unfolding submit_clicked same_step
submit-IsReady m c w h =
    IsReady-if (can_submit c (on review m w)) (on deploy m w) (on review m w) _ none
      (deploy-IsReady m w h) h

slide-IsReady :
    (t : ℕ) (w : Wizard)
    → IsReady (on operators creating w)
    → IsReady (slide t (on operators creating w))
unfolding slide IsReady step_index index_of same_step
slide-IsReady t w h =
    elim (Bool-cases (ltb 1 (length w.selected) && (leb 1 t && leb t (length w.selected)))) [
      | inl b ↦ simp b h
      | inr b ↦ simp b h
    ]

next-IsReady :
    (i : Input) (s : Step) (m : Mode) (w : Wizard)
    → IsReady (on s m w)
    → IsReady (next i (on s m w))
unfolding next same_step IsReady submit_clicked step_index index_of
next-IsReady (name_typed n) details creating w h = tt
next-IsReady (name_typed n) details attaching w h = tt
next-IsReady (name_typed n) operators m w h = h
next-IsReady (name_typed n) login m w h = h
next-IsReady (name_typed n) review m w h = h
next-IsReady (name_typed n) deploy m w h = h
next-IsReady (address_typed a) s m w h = IsReady-kept (on s m w) a w.busy h
next-IsReady (node_toggled a) details m w h = h
next-IsReady (node_toggled a) operators creating w h = h
next-IsReady (node_toggled a) operators attaching w h = h
next-IsReady (node_toggled a) login m w h = h
next-IsReady (node_toggled a) review m w h = h
next-IsReady (node_toggled a) deploy m w h = h
next-IsReady (threshold_slid t) details m w h = h
next-IsReady (threshold_slid t) operators creating w h = slide-IsReady t w h
next-IsReady (threshold_slid t) operators attaching w h = absurd h
next-IsReady (threshold_slid t) login m w h = h
next-IsReady (threshold_slid t) review m w h = h
next-IsReady (threshold_slid t) deploy m w h = h
next-IsReady (header i) s m w h = header-IsReady i s m w h
next-IsReady (mode_chosen n) s m w h = choose_mode-IsReady s m n w h
next-IsReady continued s m w h = continue-IsReady s m w h
next-IsReady went_back s m w h = back-IsReady s m w h
next-IsReady back_to_review details m w h = h
next-IsReady back_to_review operators m w h = h
next-IsReady back_to_review login m w h = h
next-IsReady back_to_review review m w h = h
next-IsReady back_to_review deploy creating w h = h
next-IsReady back_to_review deploy attaching w h = h
next-IsReady (submitted c) details m w h = h
next-IsReady (submitted c) operators m w h = h
next-IsReady (submitted c) login m w h = h
next-IsReady (submitted c) review m w h = submit-IsReady m c w h
next-IsReady (submitted c) deploy m w h = h
next-IsReady (staged b) s m w h = IsReady-kept (on s m w) w.manual_address b h

run_kept : (inputs : List Input) (w : Wizard) → IsReady w → IsReady (run inputs w)
unfolding run
run_kept [] w h = h
run_kept (i ∷ more) w h = run_kept more (next i w) (next-IsReady i w.step w.mode w h)

-- Whatever the developer does on the page, the current step belongs to the chosen flow, an app
-- past the first step has a name, and a group that is created has, past the choice of its nodes, a
-- threshold of at least one that the selected nodes can meet.
pub run-IsReady : (inputs : List Input) → IsReady (run inputs initial)
unfolding IsReady initial
run-IsReady inputs = run_kept inputs initial tt
