-- ===== src/Query/Ordered.antt =====
-- web/lib/hooks.ts: the requests of `useQuery` that wait are of different generations, each of one
-- that there has been.
use signet_platform.Prelude.{
  ℕ, suc, ◌+◌, ◌<◌, ◌≤◌, ◌≢◌, ◌≡◌, refl, false, inl, inr, List, [], ◌∷◌, ◌==◌, arith, Bool-cases,
}
use signet_platform.Query.Steps.{
  Query, Outcome, resolved, rejected, Input, run_effect, refresh, clean_up, set_data, answers, show,
  settle, invalidate, replace, forget, step, steps,
}
use signet_platform.Query.Freshness.{waits_for}

-- A list of numbers that fall strictly, from below a bound on.
abbrev pub FallsFrom : ℕ → List ℕ → Type 0
FallsFrom b [] = Unit
FallsFrom b (g ∷ gs) = (g < b) × FallsFrom g gs

FallsFrom-weaken : (b c : ℕ) (gs : List ℕ) → b ≤ c → FallsFrom b gs → FallsFrom c gs
FallsFrom-weaken b c [] h f = tt
FallsFrom-weaken b c (g ∷ gs) h (l, f) = (omega arith, f)

FallsFrom-forget : (b m : ℕ) (gs : List ℕ) → FallsFrom b gs → FallsFrom b (forget m gs)
unfolding forget
FallsFrom-forget b m [] f = tt
FallsFrom-forget b m (g ∷ gs) (l, f) = elim (Bool-cases (g == m)) [
  | inl here ↦ simp here (FallsFrom-weaken g b gs (omega arith) f)
  | inr away ↦ simp away (l, FallsFrom-forget g m gs f)
]

-- A number that does not lie below the bound does not wait.
pub FallsFrom-waits_for : (b g : ℕ) (gs : List ℕ) → FallsFrom b gs → b ≤ g → waits_for g gs ≡ false
FallsFrom-waits_for b g [] f h = refl
FallsFrom-waits_for b g (x ∷ gs) (l, f) h = ground (arith, FallsFrom-waits_for x g gs f)

pub forgotten : (b g : ℕ) (gs : List ℕ) → FallsFrom b gs → waits_for g (forget g gs) ≡ false
unfolding forget
forgotten b g [] f = refl
forgotten b g (x ∷ gs) (l, f) = elim (Bool-cases (x == g)) [
  | inl here ↦ simp here (FallsFrom-waits_for x g gs f (ground arith))
  | inr away ↦ simp away (forgotten x g gs f)
]

-- To forget one request leaves the others.
pub others_wait : (g m : ℕ) (gs : List ℕ) → g ≢ m → waits_for g (forget m gs) ≡ waits_for g gs
unfolding forget
others_wait g m [] h = refl
others_wait g m (x ∷ gs) h = ground (arith, others_wait g m gs h)

module _ {T E : Type 0} where
  abbrev pub IsOrdered : Query T E → Type 0
  IsOrdered q = FallsFrom (suc q.generation) q.pending

  pub IsOrdered-settle :
      (g : ℕ) (o : Outcome T E) (q : Query T E) → IsOrdered q → IsOrdered (settle g o q)
  unfolding settle show
  IsOrdered-settle g (resolved r) q f =
      ground (arith, FallsFrom-forget (suc q.generation) g q.pending f)
  IsOrdered-settle g (rejected e) q f =
      ground (arith, FallsFrom-forget (suc q.generation) g q.pending f)

  pub IsOrdered-step : (i : Input T E) (q : Query T E) → IsOrdered q → IsOrdered (step i q)
  unfolding step invalidate replace
  IsOrdered-step run_effect q f = (
    omega arith,
    FallsFrom-weaken (suc q.generation) (q.generation + 1) q.pending (omega arith) f,
  )
  IsOrdered-step refresh q f = (
    omega arith,
    FallsFrom-weaken (suc q.generation) (q.generation + 1) q.pending (omega arith) f,
  )
  IsOrdered-step clean_up q f =
      FallsFrom-weaken (suc q.generation) (suc (q.generation + 1)) q.pending (omega arith) f
  IsOrdered-step (set_data u) q f = f
  IsOrdered-step (answers g o) q f = IsOrdered-settle g o q f

  pub IsOrdered-steps :
      (is : List (Input T E)) (q : Query T E) → IsOrdered q → IsOrdered (steps is q)
  unfolding steps
  IsOrdered-steps [] q f = f
  IsOrdered-steps (i ∷ is) q f = IsOrdered-steps is (step i q) (IsOrdered-step i q f)
