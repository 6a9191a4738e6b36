-- ===== src/Prelude/Decimal.antt =====
-- Numbers as decimal text: `String(n)` and `${n}`.
use Prim.Native.Nat.{ℕ, zero, suc, ◌+◌, ◌-◌, ◌*◌, ◌/◌, ◌%◌, ◌≤◌}
use mathlib.Core.Path.{◌≡◌, sym, ap, ◌∙◌}
use mathlib.Core.Logic.{inl, inr}
use mathlib.Core.List.{[], ◌∷◌}
use native.Mathlib.Omega.{arith}
use signet_platform.Prelude.Tests.{◌==◌, if◌then◌else◌, Bool-cases}
use signet_platform.Prelude.Text.{Str, codes}

-- The digits of `n` in front of `acc`; every round divides `n`, so `n` rounds are enough.
decimal_from : ℕ → ℕ → Str → Str
decimal_from zero n acc = acc
decimal_from (suc f) n acc =
    let more = decimal_from f (n / 10) ((b'0' + n % 10) ∷ acc) in if n == 0 then acc else more

unfoldable pub to_decimal : ℕ → Str
unfolding decimal_from
to_decimal n = if n == 0 then codes "0" else decimal_from n n []

-- The number that a text of digits after a prefix worth `acc` stands for.
read_from : ℕ → Str → ℕ
read_from acc [] = acc
read_from acc (c ∷ s) = read_from (acc * 10 + (c - b'0')) s

decimal_from_value :
    (f n : ℕ) (acc : Str) → n ≤ f → read_from 0 (decimal_from f n acc) ≡ read_from n acc
unfolding decimal_from read_from
decimal_from_value zero n acc h = ap (λ k. read_from k acc) (omega arith)
decimal_from_value (suc f) n acc h = elim (Bool-cases (n == 0)) [
  | inl e ↦ rw e (ap (λ k. read_from k acc) (ground arith))
  | inr e ↦ rw e (
      decimal_from_value f (n / 10) ((b'0' + n % 10) ∷ acc) (ground arith)
      ∙ ap (λ k. read_from k acc) (omega arith))
]

read_from-to_decimal : (n : ℕ) → read_from 0 (to_decimal n) ≡ n
unfolding to_decimal read_from
read_from-to_decimal n = elim (Bool-cases (n == 0)) [
  | inl e ↦ rw e (ground arith)
  | inr e ↦ rw e (decimal_from_value n n [] (omega arith))
]

-- The text determines the number.
pub to_decimal_injective : (m n : ℕ) → to_decimal m ≡ to_decimal n → m ≡ n
to_decimal_injective m n e =
    sym (read_from-to_decimal m) ∙ ap (read_from 0) e ∙ read_from-to_decimal n
