-- ===== src/Query/Spinner.antt =====
-- web/lib/hooks.ts: the spinner of `useQuery` ends.
use signet_platform.Prelude.{
  ℕ, suc, ◌≡◌, refl, sym, subst, ◌∙◌, true, false, inl, inr, List, [], ◌∷◌, map, All, ◌==◌, arith,
  Bool-cases,
}
use signet_platform.Query.Steps.{
  Query, Outcome, resolved, rejected, Input, run_effect, show, settle, forget, step, steps,
}
use signet_platform.Query.Freshness.{
  waits_for, answer_all, IsMounted, HasRequest, spinner-HasRequest, HasRequest-settle,
}
use signet_platform.Query.Ordered.{
  FallsFrom, forgotten, others_wait, IsOrdered, IsOrdered-step, IsOrdered-steps, IsOrdered-settle,
}

-- A request that waits after another answer is not the one that answered, and waited before it.
still_waits :
    (b g m : ℕ) (gs : List ℕ)
    → FallsFrom b gs
    → waits_for g (forget m gs) ≡ true
    → (m == g ≡ false) × (waits_for g gs ≡ true)
still_waits b g m gs f h = elim (Bool-cases (m == g)) [
  | inl same ↦ let eq : m ≡ g = ground arith in absurd (cc (h, forgotten b g gs f, eq))
  | inr other ↦ (other, sym (others_wait g m gs (λ e. ground arith)) ∙ h)
]

module _ {T E : Type 0} where
  settle-kept :
      (g : ℕ) (o : Outcome T E) (q : Query T E)
      → ((settle g o q).pending ≡ forget g q.pending) × ((settle g o q).generation ≡ q.generation)
  unfolding settle show
  settle-kept g (resolved r) q = ground arith
  settle-kept g (rejected e) q = ground arith

  -- A request that has answered does not wait, in whatever order the others answer.
  answered :
      (g : ℕ) (rs : List (ℕ × Outcome T E)) (q : Query T E)
      → IsOrdered q
      → HasRequest q
      → q.generation ≡ g
      → (waits_for g q.pending ≡ true → waits_for g (map (λ (r : ℕ × Outcome T E). r.0) rs) ≡ true)
      → (steps (answer_all rs) q).loading ≡ false
  unfolding steps step
  answered g [] q f w e h = elim (Bool-cases q.loading) [
    | inl spins ↦ absurd (cc (h (subst (λ n. waits_for n q.pending ≡ true) e (w spins))))
    | inr shown ↦ shown
  ]
  answered g (r ∷ rs) q f w e h =
      answered g rs (settle r.0 r.1 q) (IsOrdered-settle r.0 r.1 q f)
        (HasRequest-settle r.0 r.1 q w) ((settle-kept r.0 r.1 q).1 ∙ e)
        (λ s.
          let (other, k) =
            still_waits (suc q.generation) g r.0 q.pending f
              (subst (λ gs. waits_for g gs ≡ true) (settle-kept r.0 r.1 q).0 s) in
          simp other at (h k))

  -- The spinner ends: once a hook's effect has run, and until it is cleaned up, when every request
  -- that waits answers, in any order, the hook does not show that it loads.
  pub spinner_ends :
      (more : List (Input T E)) (rs : List (ℕ × Outcome T E)) (q : Query T E)
      → All IsMounted more
      → IsOrdered q
      → ((g : ℕ)
          → waits_for g (steps more (step run_effect q)).pending ≡ true
          → waits_for g (map (λ (r : ℕ × Outcome T E). r.0) rs) ≡ true)
      → (steps (answer_all rs) (steps more (step run_effect q))).loading ≡ false
  spinner_ends more rs q m f h =
      let p : Query T E = steps more (step run_effect q) in
      answered p.generation rs p
        (IsOrdered-steps more (step run_effect q) (IsOrdered-step run_effect q f))
        (spinner-HasRequest more q m) refl (h p.generation)
