-- ===== src/Tests/Toasts.antt =====
-- Tests of the toasts.
use signet_platform.Prelude.{ℕ, IsIn, ◌≡◌, refl, none, List, [], ◌∷◌}
use signet_platform.Prelude.Text.{codes}
use signet_platform.Toasts.{Toasts, success, error, opened, push, fire, ttl}
use signet_platform.Toasts.Timers.{
  Reachable, at_start, pushed, fired, IsTimed, fire_all, Reachable-toasts_end,
}

-- Two toasts, of which the first has gone.
abbrev lingering : Toasts
lingering =
    fire 1 (push error (codes "Invite failed") none (push success (codes "Saved") none (opened 1)))

lingering-Reachable : Reachable lingering
lingering-Reachable = fired 1 _ (
    pushed error (codes "Invite failed") none _
      (pushed success (codes "Saved") none _ (at_start 1)))

left : lingering.timers ≡ (2, 9000) ∷ []
unfolding fire push opened ttl
left = refl

Reachable-toasts_end_example :
    IsTimed lingering
    × ((is : List ℕ)
        → ((x : ℕ × ℕ) → IsIn x lingering.timers → IsIn x.0 is)
        → (fire_all is lingering).toasts ≡ [])
Reachable-toasts_end_example = Reachable-toasts_end lingering lingering-Reachable
