-- ===== src/Toasts.antt =====
-- web/providers/ToastProvider.tsx: the toasts that are shown, and the timers that take them away.
pub mod Timers
use signet_platform.Prelude.{ℕ, ◌+◌, Bool, not, Option, List, [], ◌∷◌, ◌++◌, ◌==◌, filter}
use signet_platform.Prelude.Text.{Str}

pub data ToastKind : Type 0 where
  success error info : ToastKind

pub record Toast : Type 0 where
  pub id : ℕ
  pub kind : ToastKind
  pub message : Str
  pub detail : Option Str

-- The toasts, the counter of the module, and the timers that have not fired, each by the toast it
-- takes away and the milliseconds it was set for.
pub record Toasts : Type 0 where
  pub toasts : List Toast
  pub next_id : ℕ
  pub timers : List (ℕ × ℕ)

unfoldable pub opened : ℕ → Toasts
opened n = record { toasts = []; next_id = n; timers = [] }

-- Errors linger.
unfoldable pub ttl : ToastKind → ℕ
ttl error = 9000
ttl success = 4200
ttl info = 4200

unfoldable pub push : ToastKind → Str → Option Str → Toasts → Toasts
unfolding ttl
push kind message detail s = record {
  toasts =
      s.toasts ++ record { id = s.next_id; kind = kind; message = message; detail = detail } ∷ [];
  next_id = s.next_id + 1;
  timers = s.timers ++ (s.next_id, ttl kind) ∷ [];
}

-- The timer of a toast fires.
unfoldable pub fire : ℕ → Toasts → Toasts
fire id s = record s {
  toasts = filter (λ t. not (t.id == id)) s.toasts;
  timers = filter (λ t. not (t.0 == id)) s.timers;
}
