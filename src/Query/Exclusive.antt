-- ===== src/Query/Exclusive.antt =====
-- web/lib/hooks.ts: a button's action runs once at a time.
use signet_platform.Prelude.{◌<◌, ◌≡◌, refl, Option, if◌then◌else◌, arith}
use signet_platform.Query.Steps.{Action, idle, click, finish}

module _ {E : Type 0} where
  -- The states that clicks and ending actions lead to; only a running action ends.
  pub data Reachable : Action E → Type 0 where
    mounted : Reachable idle
    clicked : (a : Action E) → Reachable a → Reachable (click a)
    finished : (a : Action E) (o : Option E) → 0 < a.running → Reachable a → Reachable (finish o a)

  abbrev pub IsExclusive : Action E → Type 0
  IsExclusive a = (a.running ≡ (if a.in_flight then 1 else 0)) × (a.waits ≡ a.in_flight)

  click-IsExclusive : (a : Action E) → IsExclusive a → IsExclusive (click a)
  unfolding click
  click-IsExclusive a h = ground arith

  finish-IsExclusive : (o : Option E) (a : Action E) → IsExclusive a → IsExclusive (finish o a)
  unfolding finish
  finish-IsExclusive o a h = ground arith

  -- However often a button is clicked, its action runs at most once at a time, and the button shows
  -- that it waits exactly while the action runs.
  pub Reachable-IsExclusive : (a : Action E) → Reachable a → IsExclusive a
  unfolding idle
  Reachable-IsExclusive a mounted = (refl, refl)
  Reachable-IsExclusive a (clicked b h) = click-IsExclusive b (Reachable-IsExclusive b h)
  Reachable-IsExclusive a (finished b o r h) = finish-IsExclusive o b (Reachable-IsExclusive b h)
