-- ===== src/Wizard/Ready.antt =====
-- web/app/(console)/apps/new/page.tsx: what a step of the wizard rests on.
use signet_platform.Prelude.{
  ℕ, zero, suc, head?, drop, ◌≤◌, ◌≡◌, refl, sym, subst, false, Option, none, some, [], length,
  arith,
}
use signet_platform.Prelude.Text.{is_empty}
use signet_platform.Prelude.Space.{trim}
use signet_platform.Wizard.{
  Step, Mode, creating, attaching, Wizard, step_index, go_to, index_of, same_step,
}

abbrev pub IsNamed : Wizard → Type 0
IsNamed w = is_empty (trim w.name) ≡ false

abbrev pub FitsThreshold : Wizard → Type 0
FitsThreshold w = (1 ≤ w.threshold) × (w.threshold ≤ length w.selected)

-- What the step at an index rests on: a name past the first, and in a flow that creates a group a
-- threshold that its nodes can meet past the second.
abbrev pub IsReadyAt : Mode → ℕ → Wizard → Type 0
IsReadyAt m zero w = Unit
IsReadyAt m (suc zero) w = IsNamed w
IsReadyAt creating (suc (suc i)) w = IsNamed w × FitsThreshold w
IsReadyAt attaching (suc (suc i)) w = IsNamed w

-- The current step is one of its flow, and what it rests on is there.
abbrev pub IsReadyFor : Mode → Option ℕ → Wizard → Type 0
IsReadyFor m none w = ⊥
IsReadyFor m (some i) w = IsReadyAt m i w

unfoldable pub IsReady : Wizard → Type 0
unfolding step_index index_of same_step
IsReady w = IsReadyFor w.mode (step_index w) w

-- The wizard `w` on a given step, in a given mode.
abbrev pub on : Step → Mode → Wizard → Wizard
on s m w = record w { step = s; mode = m }

pub IsReadyAt-earlier :
    (m : Mode) (i j : ℕ) (w : Wizard) → i ≤ j → IsReadyAt m j w → IsReadyAt m i w
IsReadyAt-earlier m zero j w le h = tt
IsReadyAt-earlier m (suc zero) zero w le h = absurd (omega arith)
IsReadyAt-earlier m (suc zero) (suc zero) w le h = h
IsReadyAt-earlier creating (suc zero) (suc (suc j)) w le h = h.0
IsReadyAt-earlier attaching (suc zero) (suc (suc j)) w le h = h
IsReadyAt-earlier m (suc (suc i)) zero w le h = absurd (omega arith)
IsReadyAt-earlier m (suc (suc i)) (suc zero) w le h = absurd (omega arith)
IsReadyAt-earlier creating (suc (suc i)) (suc (suc j)) w le h = h
IsReadyAt-earlier attaching (suc (suc i)) (suc (suc j)) w le h = h

nothing_past : (i : ℕ) → head? {A = Step} (drop i []) ≡ none
nothing_past zero = refl
nothing_past (suc i) = refl

creating_past :
    (i : ℕ) (s : Step) (w : Wizard)
    → go_to (suc (suc (suc (suc (suc i))))) (on s creating w) ≡ on s creating w
unfolding go_to
creating_past i s w = simp (nothing_past i)

attaching_past :
    (i : ℕ) (s : Step) (w : Wizard)
    → go_to (suc (suc (suc i))) (on s attaching w) ≡ on s attaching w
unfolding go_to
attaching_past i s w = simp (nothing_past i)

pub go_to-IsReady :
    (i : ℕ) (s : Step) (m : Mode) (w : Wizard)
    → IsReadyAt m i (on s m w)
    → IsReady (on s m w)
    → IsReady (go_to i (on s m w))
unfolding IsReady go_to
go_to-IsReady zero s creating w h k = tt
go_to-IsReady (suc zero) s creating w h k = h
go_to-IsReady (suc (suc zero)) s creating w h k = h
go_to-IsReady (suc (suc (suc zero))) s creating w h k = h
go_to-IsReady (suc (suc (suc (suc zero)))) s creating w h k = h
go_to-IsReady (suc (suc (suc (suc (suc i))))) s creating w h k =
    subst IsReady (sym (creating_past i s w)) k
go_to-IsReady zero s attaching w h k = tt
go_to-IsReady (suc zero) s attaching w h k = h
go_to-IsReady (suc (suc zero)) s attaching w h k = h
go_to-IsReady (suc (suc (suc i))) s attaching w h k = subst IsReady (sym (attaching_past i s w)) k
