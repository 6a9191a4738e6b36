-- ===== src/Wizard/Submit.antt =====
-- web/app/(console)/apps/new/page.tsx: what the review submits.
use signet_platform.Prelude.{
  ◌≡◌, refl, subst, Bool, true, false, Option, none, some, List, Bool-cases, inl, inr,
}
use signet_platform.Prelude.Text.{Str}
use signet_platform.Prelude.Space.{trim}
use signet_platform.Wizard.{
  Step, details, operators, login, review, deploy, Mode, creating, attaching, Wizard, initial,
  submit_clicked, can_submit, is_address, step_index, index_of, same_step,
}
use signet_platform.Wizard.Inputs.{Input, run}
use signet_platform.Wizard.Ready.{IsNamed, FitsThreshold, IsReady, on}
use signet_platform.Wizard.Flow.{run-IsReady}

-- What a call of `deploy` from the review is made with, by its argument.
abbrev pub IsSubmittable : Bool → Wizard → Option Str → Type 0
IsSubmittable can_sign w none = (can_sign ≡ true) × IsNamed w × FitsThreshold w
IsSubmittable can_sign w (some a) = (is_address a ≡ true) × IsNamed w

submit_sound :
    (s : Step) (m : Mode) (can_sign : Bool) (w v : Wizard) (target : Option Str)
    → IsReady (on s m w)
    → submit_clicked can_sign (on s m w) ≡ (v, some target)
    → IsSubmittable can_sign w target
unfolding submit_clicked can_submit same_step IsReady step_index index_of
submit_sound details m c w v target h e = cc e
submit_sound operators m c w v target h e = cc e
submit_sound login m c w v target h e = cc e
submit_sound deploy m c w v target h e = cc e
submit_sound review creating false w v target h e = cc e
submit_sound review creating true w v none h e = (refl, h.0, h.1)
submit_sound review creating true w v (some a) h e = cc e
submit_sound review attaching c w v target h e =
    elim (Bool-cases (is_address (trim w.manual_address))) [
      | inl valid ↦ given target (simp valid at e) valid
      | inr invalid ↦ absurd (refused (simp invalid at e))
    ]
  where
    given :
        (t : Option Str)
        → ◌≡◌ {A = Wizard × Option (Option Str)}
            (on deploy attaching w, some (some (trim w.manual_address)))
            (v, some t)
        → is_address (trim w.manual_address) ≡ true
        → IsSubmittable c w t
    given none x valid = cc x
    given (some a) x valid =
        let same : trim w.manual_address ≡ a = cc x in
        (subst (λ s. is_address s ≡ true) same valid, h)

    refused :
        ◌≡◌ {A = Wizard × Option (Option Str)} (on review attaching w, none) (v, some target) → ⊥
    refused x = cc x

-- The review calls `deploy`, after any inputs, only for an app with a name: for a new group only
-- if the tab can sign and the selected nodes can meet the threshold, and for an existing group
-- only with the text of an address.
pub run-IsSubmittable :
    (inputs : List Input) (can_sign : Bool) (v : Wizard) (target : Option Str)
    → submit_clicked can_sign (run inputs initial) ≡ (v, some target)
    → IsSubmittable can_sign (run inputs initial) target
run-IsSubmittable inputs can_sign v target e =
    let w = run inputs initial in
    submit_sound w.step w.mode can_sign w v target (run-IsReady inputs) e
