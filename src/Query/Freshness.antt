-- ===== src/Query/Freshness.antt =====
-- web/lib/hooks.ts: what `useQuery` shows is the outcome of its newest request.
use signet_platform.Prelude.{
  ℕ, ◌<◌, ◌≢◌, ◌≡◌, refl, sym, ap, ◌∙◌, subst, Bool, true, false, inl, inr, Option, none, some,
  List, [], ◌∷◌, ◌++◌, map, All, if◌then◌else◌, ◌==◌, arith, Bool-cases,
}
use signet_platform.Query.Steps.{
  Query, Outcome, resolved, rejected, Input, run_effect, refresh, clean_up, set_data, answers,
  start, show, settle, forget, replace, step, steps,
}

-- Whether a request of the generation waits.
abbrev pub waits_for : ℕ → List ℕ → Bool
waits_for g [] = false
waits_for g (x ∷ xs) = if x == g then true else waits_for g xs

waits_for-forget :
    (g mine : ℕ) (xs : List ℕ)
    → g ≢ mine
    → waits_for g xs ≡ true
    → waits_for g (forget mine xs) ≡ true
unfolding forget
waits_for-forget g mine [] other h = h
waits_for-forget g mine (x ∷ xs) other h = ground (arith, waits_for-forget g mine xs other)

module _ {T E : Type 0} where
  abbrev pub answer_all : List (ℕ × Outcome T E) → List (Input T E)
  answer_all rs = map (λ (r : ℕ × Outcome T E). answers r.0 r.1) rs

  -- What a screen sees of the hook.
  abbrev pub shown : Query T E → Option T × Option E × Bool
  shown q = (q.data_shown, q.error_shown, q.loading)

  abbrev pub IsOlder : ℕ → ℕ × Outcome T E → Type 0
  IsOlder newest r = r.0 < newest

  settle_older :
      (mine : ℕ) (o : Outcome T E) (q : Query T E)
      → mine < q.generation
      → (shown (settle mine o q) ≡ shown q) × ((settle mine o q).generation ≡ q.generation)
  unfolding settle
  settle_older mine o q h = ground arith

  steps_older :
      (rs : List (ℕ × Outcome T E)) (q : Query T E)
      → All (IsOlder q.generation) rs
      → (shown (steps (answer_all rs) q) ≡ shown q)
        × ((steps (answer_all rs) q).generation ≡ q.generation)
  unfolding steps step
  steps_older [] q h = (refl, refl)
  steps_older (r ∷ rs) q (older, h) =
      let (same, gen) = settle_older r.0 r.1 q older in
      let (rest, gens) =
        steps_older rs (settle r.0 r.1 q) (subst (λ g. All (IsOlder g) rs) (sym gen) h) in
      (rest ∙ same, gens ∙ gen)

  steps-append :
      (xs ys : List (Input T E)) (q : Query T E) → steps (xs ++ ys) q ≡ steps ys (steps xs q)
  unfolding steps
  steps-append [] ys q = refl
  steps-append (x ∷ xs) ys q = steps-append xs ys (step x q)

  -- The screen after the newest request has answered, by what it showed before.
  abbrev pub shown_by : Outcome T E → Query T E → Option T × Option E × Bool
  shown_by (resolved result) q = (some result, none, false)
  shown_by (rejected error) q = (q.data_shown, some error, false)

  settle_newest :
      (o : Outcome T E) (q : Query T E)
      → (shown (settle q.generation o q) ≡ shown_by o q)
        × ((settle q.generation o q).generation ≡ q.generation)
  unfolding settle show
  settle_newest (resolved result) q = ground arith
  settle_newest (rejected error) q = ground arith

  shown_by-cong :
      (o : Outcome T E) (p q : Query T E) → shown p ≡ shown q → shown_by o p ≡ shown_by o q
  shown_by-cong (resolved result) p q h = refl
  shown_by-cong (rejected error) p q h =
      ap (λ (s : Option T × Option E × Bool). (s.0, some error, false)) h

  -- In whatever order the requests answer, before the newest one or after it, the screen ends with
  -- the newest one's outcome: its result without an error, or its error beside what was shown.
  pub newest_shown :
      (before late : List (ℕ × Outcome T E)) (o : Outcome T E) (q : Query T E)
      → All (IsOlder q.generation) before
      → All (IsOlder q.generation) late
      → shown (steps (answer_all before ++ answers q.generation o ∷ answer_all late) q)
        ≡ shown_by o q
  unfolding steps step
  newest_shown before late o q hb hl =
      let p : Query T E = steps (answer_all before) q in
      let (same, gen) = steps_older before q hb in
      let (now, kept) = settle_newest o p in
      let (rest, gens) =
        steps_older late (settle p.generation o p)
          (subst (λ g. All (IsOlder g) late) (sym (kept ∙ gen)) hl) in
      ap shown (steps-append (answer_all before) (answers q.generation o ∷ answer_all late) q)
      ∙ ap (λ g. shown (steps (answer_all late) (settle g o p))) (sym gen)
      ∙ rest
      ∙ now
      ∙ shown_by-cong o p q same

  abbrev pub IsMounted : Input T E → Type 0
  IsMounted clean_up = ⊥
  IsMounted run_effect = Unit
  IsMounted refresh = Unit
  IsMounted (set_data f) = Unit
  IsMounted (answers g o) = Unit

  abbrev pub HasRequest : Query T E → Type 0
  HasRequest q = q.loading ≡ true → waits_for q.generation q.pending ≡ true

  pub HasRequest-settle :
      (g : ℕ) (o : Outcome T E) (q : Query T E) → HasRequest q → HasRequest (settle g o q)
  unfolding settle
  HasRequest-settle g o q h = elim (Bool-cases (q.generation == g)) [
    | inl here ↦ simp here (λ e. cc e)
    | inr other ↦
        simp other (λ e. waits_for-forget q.generation g q.pending (λ s. ground arith) (h e))
  ]

  HasRequest-step :
      (i : Input T E) (q : Query T E) → IsMounted i → HasRequest q → HasRequest (step i q)
  unfolding step start replace
  HasRequest-step run_effect q m h = ground arith
  HasRequest-step refresh q m h = ground arith
  HasRequest-step clean_up q m h = absurd m
  HasRequest-step (set_data f) q m h = h
  HasRequest-step (answers g o) q m h = HasRequest-settle g o q h

  HasRequest-steps :
      (more : List (Input T E)) (q : Query T E)
      → All IsMounted more
      → HasRequest q
      → HasRequest (steps more q)
  unfolding steps
  HasRequest-steps [] q m h = h
  HasRequest-steps (i ∷ more) q (m, ms) h =
      HasRequest-steps more (step i q) ms (HasRequest-step i q m h)

  -- Once its effect has run and until it is cleaned up, a hook that shows a spinner has a request
  -- of its newest generation that has not answered, so that the spinner will end.
  pub spinner-HasRequest :
      (more : List (Input T E)) (q : Query T E)
      → All IsMounted more
      → HasRequest (steps more (step run_effect q))
  unfolding step start
  spinner-HasRequest more q m = HasRequest-steps more (step run_effect q) m (λ e. ground arith)
