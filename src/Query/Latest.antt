-- ===== src/Query/Latest.antt =====
-- web/lib/hooks.ts: `useQuery` without the requests that were given up. A machine that knows only of
-- the newest request, and that `useQuery` refines.
use signet_platform.Prelude.{
  ℕ, suc, ◌+◌, ◌≡◌, sym, ap, subst, Bool, true, false, inl, inr, Option, none, some, List, [], ◌∷◌,
  ◌==◌, arith, Bool-cases,
}
use signet_platform.Query.Steps.{
  Query, Outcome, resolved, rejected, Input, run_effect, refresh, clean_up, set_data, answers,
  start, show, settle, invalidate, replace, step, steps,
}
use signet_platform.Query.Freshness.{waits_for}
use signet_platform.Query.Ordered.{
  FallsFrom-waits_for, forgotten, others_wait, IsOrdered, IsOrdered-step,
}

module _ (T E : Type 0) where
  -- What the screen shows, the number of the newest request, and whether it is still waited for.
  pub record Latest : Type 0 where
    pub data_shown : Option T
    pub error_shown : Option E
    pub loading : Bool
    pub newest : ℕ
    pub waiting : Bool

module _ {T E : Type 0} where
  abbrev pub told : Outcome T E → Latest T E → Latest T E
  told (resolved result) l = record l {
    data_shown = some result;
    error_shown = none;
    loading = false;
    waiting = false;
  }
  told (rejected error) l = record l { error_shown = some error; loading = false; waiting = false }

  -- What an input does: a request starts, under a number of its own; the newest request is given up,
  -- which uses up a number; the value is replaced; and a request answers, which tells the screen only
  -- if it is the newest one and is waited for.
  pub data Move : Input T E → Latest T E → Latest T E → Type 0 where
    begins :
        (l : Latest T E)
        → Move run_effect l (record l { loading = true; newest = l.newest + 1; waiting = true })
    begins_quietly :
        (l : Latest T E) → Move refresh l (record l { newest = l.newest + 1; waiting = true })
    gives_up :
        (l : Latest T E) → Move clean_up l (record l { newest = l.newest + 1; waiting = false })
    replaces :
        (updater : Option T → Option T) (l : Latest T E)
        → Move (set_data updater) l (record l { data_shown = updater l.data_shown })
    tells :
        (o : Outcome T E) (l : Latest T E)
        → l.waiting ≡ true
        → Move (answers l.newest o) l (told o l)
    ignored :
        (g : ℕ) (o : Outcome T E) (l : Latest T E) → l.newest == g ≡ false → Move (answers g o) l l

  -- One move for each input, in their order.
  pub data Moves : List (Input T E) → Latest T E → Latest T E → Type 0 where
    still : (l : Latest T E) → Moves [] l l
    then_on :
        (i : Input T E) (is : List (Input T E)) (l m n : Latest T E)
        → Move i l m
        → Moves is m n
        → Moves (i ∷ is) l n

  abbrev pub latest : Query T E → Latest T E
  latest q = record {
    data_shown = q.data_shown;
    error_shown = q.error_shown;
    loading = q.loading;
    newest = q.generation;
    waiting = waits_for q.generation q.pending;
  }

  -- A request answers only if it waits.
  abbrev pub IsEnabled : Input T E → Query T E → Type 0
  IsEnabled (answers g o) q = waits_for g q.pending ≡ true
  IsEnabled i q = Unit

  abbrev pub AreEnabled : List (Input T E) → Query T E → Type 0
  AreEnabled [] q = Unit
  AreEnabled (i ∷ is) q = IsEnabled i q × AreEnabled is (step i q)

  settle-told :
      (o : Outcome T E) (q : Query T E)
      → IsOrdered q
      → told o (latest q) ≡ latest (settle q.generation o q)
  unfolding settle show
  settle-told (resolved result) q f =
      ground (arith, forgotten (suc q.generation) q.generation q.pending f)
  settle-told (rejected error) q f =
      ground (arith, forgotten (suc q.generation) q.generation q.pending f)

  settle-latest :
      (g : ℕ) (o : Outcome T E) (q : Query T E)
      → q.generation == g ≡ false
      → latest q ≡ latest (settle g o q)
  unfolding settle show
  settle-latest g o q h = simp h (
      ap (λ b. record (latest q) { waiting = b })
        (sym (others_wait q.generation g q.pending (λ e. ground arith))))

  settle-Move :
      (g : ℕ) (o : Outcome T E) (q : Query T E)
      → IsOrdered q
      → waits_for g q.pending ≡ true
      → Move (answers g o) (latest q) (latest (settle g o q))
  settle-Move g o q f h = elim (Bool-cases (q.generation == g)) [
    | inl newest ↦
        let same : q.generation ≡ g = ground arith in
        subst (λ n. Move (answers n o) (latest q) (latest (settle n o q))) same
          (subst (λ l. Move (answers q.generation o) (latest q) l) (settle-told o q f)
            (tells o (latest q) (rw same h)))
    | inr older ↦
        subst (λ l. Move (answers g o) (latest q) l) (settle-latest g o q older)
          (ignored g o (latest q) older)
  ]

  step-Move :
      (i : Input T E) (q : Query T E)
      → IsOrdered q
      → IsEnabled i q
      → Move i (latest q) (latest (step i q))
  unfolding step start invalidate replace
  step-Move run_effect q f h =
      subst (λ l. Move run_effect (latest q) l) (ground arith) (begins (latest q))
  step-Move refresh q f h =
      subst (λ l. Move refresh (latest q) l) (ground arith) (begins_quietly (latest q))
  step-Move clean_up q f h =
      subst (λ l. Move clean_up (latest q) l)
        (ap (λ b. record (latest q) { newest = q.generation + 1; waiting = b })
          (sym
            (FallsFrom-waits_for (suc q.generation) (q.generation + 1) q.pending f (omega arith))))
        (gives_up (latest q))
  step-Move (set_data u) q f h = replaces u (latest q)
  step-Move (answers g o) q f h = settle-Move g o q f h

  -- What a hook shows over any run in which only waiting requests answer is, input by input, a run of
  -- the machine that remembers only the newest request and whether it is waited for: an answer
  -- changes what is shown exactly when it is that of the newest request, while it is waited for.
  pub steps-Moves :
      (is : List (Input T E)) (q : Query T E)
      → IsOrdered q
      → AreEnabled is q
      → Moves is (latest q) (latest (steps is q))
  unfolding steps
  steps-Moves [] q f h = still (latest q)
  steps-Moves (i ∷ is) q f (h, hs) =
      then_on i is _ _ _ (step-Move i q f h) (steps-Moves is (step i q) (IsOrdered-step i q f) hs)
