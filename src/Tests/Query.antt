-- ===== src/Tests/Query.antt =====
-- Tests of the hooks.
use signet_platform.Prelude.{ℕ, ◌≡◌, refl, true, false, none, List, [], ◌∷◌, arith}
use signet_platform.Query.Steps.{
  Query, run_effect, refresh, answers, resolved, rejected, initial, step, steps, idle, click, Input,
}
use signet_platform.Query.Freshness.{answer_all}
use signet_platform.Query.Latest.{latest, Moves, steps-Moves}
use signet_platform.Query.Spinner.{spinner_ends}
use signet_platform.Query.Exclusive.{mounted, clicked, IsExclusive, Reachable-IsExclusive}

-- A hook whose second request waits beside the first.
abbrev two_waiting : Query ℕ ℕ
two_waiting = record {
  data_shown = none;
  error_shown = none;
  loading = true;
  generation = 2;
  pending = 2 ∷ 1 ∷ [];
}

started : steps (run_effect ∷ refresh ∷ []) (initial {T = ℕ} {E = ℕ}) ≡ two_waiting
unfolding steps initial
started = refl

-- The runs of these tests.
abbrev run : List (Input ℕ ℕ)
run = run_effect ∷ refresh ∷ answers 1 (resolved 7) ∷ answers 2 (rejected 500) ∷ []

steps-Moves_example : Moves run (latest (initial {T = ℕ} {E = ℕ})) (latest (steps run initial))
unfolding initial step
steps-Moves_example = steps-Moves run initial tt (tt, (tt, (refl, (refl, tt))))

spinner_ends_example :
    (steps
      (answer_all ((1, resolved 7) ∷ (2, rejected 500) ∷ []))
      (steps (refresh ∷ []) (step run_effect (initial {T = ℕ} {E = ℕ})))).loading
    ≡ false
unfolding initial step steps
spinner_ends_example =
    spinner_ends {T = ℕ} {E = ℕ} (refresh ∷ []) ((1, resolved 7) ∷ (2, rejected 500) ∷ []) initial
      (tt, tt) tt (λ g h. ground arith)

-- Two clicks start one action.
clicked_twice : click (click (idle {E = ℕ})) ≡ click idle
unfolding click idle
clicked_twice = refl

Reachable-IsExclusive_example : IsExclusive (click (click (idle {E = ℕ})))
Reachable-IsExclusive_example =
    Reachable-IsExclusive (click (click idle)) (clicked (click idle) (clicked idle mounted))
