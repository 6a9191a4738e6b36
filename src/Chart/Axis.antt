-- ===== src/Chart/Axis.antt =====
-- web/components/Chart.tsx: every value stands below the top of the axis, which is a round number.
use signet_platform.Prelude.{
  ℕ, zero, suc, ◌+◌, ◌*◌, ◌^◌, ◌≤◌, ◌<◌, max, leb, ◌≡◌, refl, sym, ap, ◌∙◌, inl, inr, List, [], ◌∷◌,
  All, Bool-cases, arith, leb→le,
}
use native.Mathlib.Nat.{pow-suc}
use signet_platform.Chart.{Series, peak_of, peak_from, peak, raise, magnitude, ceil_div, axis_max}

peak_of-le : (m : ℕ) (vs : List ℕ) → (m ≤ peak_of m vs) × All (λ v. v ≤ peak_of m vs) vs
unfolding peak_of
peak_of-le m [] = (omega arith, tt)
peak_of-le m (v ∷ vs) = let (h, hs) = peak_of-le (max m v) vs in (omega arith, (omega arith, hs))

AllBelow : ℕ → List Series → Type 0
AllBelow top series = All (λ (s : Series). All (λ v. v ≤ top) s.values) series

All-le : (a b : ℕ) (vs : List ℕ) → a ≤ b → All (λ v. v ≤ a) vs → All (λ v. v ≤ b) vs
All-le a b [] h hs = tt
All-le a b (v ∷ vs) h (k, ks) = (omega arith, All-le a b vs h ks)

peak_from-le :
    (m : ℕ) (series : List Series) → (m ≤ peak_from m series) × AllBelow (peak_from m series) series
unfolding peak_from AllBelow
peak_from-le m [] = (omega arith, tt)
peak_from-le m (s ∷ series) =
    let (h, hs) = peak_of-le m s.values in
    let (k, ks) = peak_from-le (peak_of m s.values) series in
    (omega arith, (All-le (peak_of m s.values) _ s.values k hs, ks))

AllBelow-le : (a b : ℕ) (series : List Series) → a ≤ b → AllBelow a series → AllBelow b series
unfolding AllBelow
AllBelow-le a b [] h hs = tt
AllBelow-le a b (s ∷ series) h (k, ks) = (All-le a b s.values h k, AllBelow-le a b series h ks)

-- The power of ten that is raised is at most the number, and more than a tenth of it.
raise_lem :
    (f k p m : ℕ)
    → p ≡ 10 ^ k
    → 1 ≤ p
    → p ≤ m
    → m < p + f
    → (j : ℕ) × (raise f p m ≡ 10 ^ j)
      × (1 ≤ raise f p m)
      × (raise f p m ≤ m)
      × (m < raise f p m * 10)
unfolding raise
raise_lem zero k p m e o h l = absurd (omega arith)
raise_lem (suc f) k p m e o h l = elim (Bool-cases (leb (p * 10) m)) [
  | inl more ↦
      rw (more, raise)
        (raise_lem f (suc k) (p * 10) m (ap (λ x. x * 10) e ∙ sym (pow-suc 10 k)) (omega arith)
          (leb→le (p * 10) m more) (omega arith))
  | inr done ↦ (
    k,
    rw (done, raise) e,
    rw (done, raise) o,
    rw (done, raise) h,
    rw (done, raise) (ground arith),
  )
]

-- Rounding up to a multiple.
rounded :
    (m p : ℕ)
    → 1 ≤ p
    → p ≤ m
    → m < p * 10
    → (m ≤ ceil_div m p * p) × (ceil_div m p * p < m + p) × (1 ≤ ceil_div m p) × (ceil_div m p ≤ 10)
unfolding ceil_div
rounded m p h k l = grind arith

-- The top of the axis is at least every value and less than twice the greatest of them and 1, and it
-- is a digit that is not 0, or ten, times a power of ten.
pub axis_max-IsRound :
    (series : List Series)
    → All (λ (s : Series). All (λ v. v ≤ axis_max series) s.values) series
      × (axis_max series < 2 * peak series)
      × (d k : ℕ) × (axis_max series ≡ d * 10 ^ k)
      × (1 ≤ d)
      × (d ≤ 10)
unfolding axis_max magnitude peak AllBelow
axis_max-IsRound series =
    let (low, all) = peak_from-le 1 series in
    let (k, e, o, h, l) =
      raise_lem (peak series) 0 1 (peak series) refl (omega arith) low (omega arith) in
    let (above, close, least, most) = rounded (peak series) (magnitude (peak series)) o h l in
    (
      AllBelow-le (peak series) (axis_max series) series above all,
      omega arith,
      ceil_div (peak series) (magnitude (peak series)),
      k,
      ap (λ x. ceil_div (peak series) (magnitude (peak series)) * x) e,
      least,
      most,
    )
