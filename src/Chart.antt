-- ===== src/Chart.antt =====
-- web/components/Chart.tsx: the axis and the labels of the chart, for values that are natural
-- numbers. The axis is computed in numbers that are exact for such values; the positions on the
-- screen, which are not, are left out.
pub mod Axis
pub mod Labels
use signet_platform.Prelude.{
  ℕ, zero, suc, ◌+◌, ◌-◌, ◌*◌, ◌/◌, ◌%◌, ◌||◌, max, leb, ◌==◌, Bool, List, [], ◌∷◌, filter, length,
  if◌then◌else◌,
}
use signet_platform.Prelude.Text.{Str}

pub record Series : Type 0 where
  pub label : Str
  pub values : List ℕ

-- `Math.max(1, ...series.flatMap((s) => s.values))`
unfoldable pub peak_of : ℕ → List ℕ → ℕ
peak_of m [] = m
peak_of m (v ∷ vs) = peak_of (max m v) vs

unfoldable pub peak_from : ℕ → List Series → ℕ
unfolding peak_of
peak_from m [] = m
peak_from m (s ∷ series) = peak_from (peak_of m s.values) series

unfoldable pub peak : List Series → ℕ
unfolding peak_from
peak series = peak_from 1 series

-- `Math.pow(10, Math.floor(Math.log10(m)))` for `1 ≤ m`: the power of ten is raised while it does not
-- pass `m`, which takes fewer than `m` rounds.
unfoldable pub raise : ℕ → ℕ → ℕ → ℕ
raise zero p m = p
raise (suc f) p m = let more = raise f (p * 10) m in if leb (p * 10) m then more else p

unfoldable pub magnitude : ℕ → ℕ
unfolding raise
magnitude m = raise m 1 m

-- `Math.ceil(a / b)`, for `0 < b`
unfoldable pub ceil_div : ℕ → ℕ → ℕ
ceil_div a b = (a + (b - 1)) / b

unfoldable pub axis_max : List Series → ℕ
unfolding peak magnitude ceil_div
axis_max series = let m = peak series in ceil_div m (magnitude m) * magnitude m

-- Whether the label of a day is written, of so many.
unfoldable pub is_labelled : ℕ → ℕ → Bool
unfolding ceil_div
is_labelled n i = i % ceil_div n 7 == 0 || i == n - 1

-- The indices below a number, the last first.
unfoldable pub below : ℕ → List ℕ
below zero = []
below (suc n) = n ∷ below n

unfoldable pub labelled : ℕ → List ℕ
unfolding is_labelled below
labelled n = filter (is_labelled n) (below n)
