-- ===== src/Query/Steps.antt =====
-- web/lib/hooks.ts: the states and the steps of `useQuery` and `useAction`.
use signet_platform.Prelude.{
  ℕ, ◌+◌, ◌-◌, Bool, true, false, Option, none, some, List, [], ◌∷◌, if◌then◌else◌, ◌==◌,
}

-- One request of a generation less among those that wait.
unfoldable pub forget : ℕ → List ℕ → List ℕ
forget mine [] = []
forget mine (g ∷ gs) = let rest = forget mine gs in if g == mine then gs else g ∷ rest

module _ (T E : Type 0) where
  -- What the fetcher's promise came to.
  pub data Outcome : Type 0 where
    resolved : T → Outcome
    rejected : E → Outcome

  -- The hook's state: what the screen shows, the generation, and the generations of the requests
  -- that have not answered.
  pub record Query : Type 0 where
    pub data_shown : Option T
    pub error_shown : Option E
    pub loading : Bool
    pub generation : ℕ
    pub pending : List ℕ

  -- What can happen to a hook: its effect runs or cleans up, its screen refreshes or replaces the
  -- value, or one of its waiting requests answers.
  pub data Input : Type 0 where
    run_effect refresh clean_up : Input
    set_data : (Option T → Option T) → Input
    answers : ℕ → Outcome → Input

module _ {T E : Type 0} where
  unfoldable pub initial : Query T E
  initial = record {
    data_shown = none;
    error_shown = none;
    loading = true;
    generation = 0;
    pending = [];
  }

  -- `run(showSpinner)` up to its `await`
  unfoldable pub start : Bool → Query T E → Query T E
  start show_spinner q = record q {
    generation = q.generation + 1;
    pending = (q.generation + 1) ∷ q.pending;
    loading = if show_spinner then true else q.loading;
  }

  -- The rest of `run`, when its request answers: the `try`, `catch` and `finally` blocks.
  unfoldable pub show : Outcome T E → Query T E → Query T E
  show (resolved result) q = record q { data_shown = some result; error_shown = none }
  show (rejected error) q = record q { error_shown = some error }

  unfoldable pub settle : ℕ → Outcome T E → Query T E → Query T E
  unfolding show forget
  settle mine o q =
      let answered : Query T E = record q { pending = forget mine q.pending } in
      if q.generation == mine then record (show o answered) { loading = false } else answered

  -- The clean-up of the effect: the hook is unmounted, or its dependencies changed.
  unfoldable pub invalidate : Query T E → Query T E
  invalidate q = record q { generation = q.generation + 1 }

  -- `set(updater)`
  unfoldable pub replace : (Option T → Option T) → Query T E → Query T E
  replace updater q = record q { data_shown = updater q.data_shown }

  unfoldable pub step : Input T E → Query T E → Query T E
  unfolding start settle invalidate replace
  step run_effect q = start true q
  step refresh q = start false q
  step clean_up q = invalidate q
  step (set_data updater) q = replace updater q
  step (answers mine o) q = settle mine o q

  unfoldable pub steps : List (Input T E) → Query T E → Query T E
  unfolding step
  steps [] q = q
  steps (i ∷ more) q = steps more (step i q)

-- `useAction`: `running` counts the actions that have been called and have not ended.
pub record Action (E : Type 0) : Type 0 where
  pub in_flight : Bool
  pub waits : Bool
  pub failure : Option E
  pub running : ℕ

module _ {E : Type 0} where
  unfoldable pub idle : Action E
  idle = record { in_flight = false; waits = false; failure = none; running = 0 }

  -- A call of `run`, up to its `await`
  unfoldable pub click : Action E → Action E
  click a =
      if a.in_flight
      then a
      else record { in_flight = true; waits = true; failure = none; running = a.running + 1 }

  -- The action ends, with an error or without: the `catch` and `finally` blocks.
  unfoldable pub finish : Option E → Action E → Action E
  finish none a = record a { in_flight = false; waits = false; running = a.running - 1 }
  finish (some error) a = record {
    in_flight = false;
    waits = false;
    failure = some error;
    running = a.running - 1;
  }
