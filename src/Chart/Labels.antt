-- ===== src/Chart/Labels.antt =====
-- web/components/Chart.tsx: how many labels of days are written.
use signet_platform.Prelude.{
  ℕ, zero, suc, ◌+◌, ◌-◌, ◌*◌, ◌/◌, ◌%◌, ◌≤◌, ◌||◌, ◌==◌, ◌≡◌, inl, inr, Bool, true, filter, length,
  Bool-cases, arith, IsIn, IsIn-filter,
}
use signet_platform.Chart.{ceil_div, is_labelled, below, labelled}

module _ (s : ℕ) (pos : 1 ≤ s) where
  abbrev is_multiple : ℕ → Bool
  is_multiple i = i % s == 0

  fewer : (c q : ℕ) → c * s ≤ q * s + (s - 1) → c ≤ q
  fewer c q h = grind arith

  scaled : (c q : ℕ) → c ≤ q → c * s ≤ q * s
  scaled c q h = grind arith

  suc_mul : (c : ℕ) → suc c * s ≡ c * s + s
  suc_mul c = grind arith

  -- The multiples of a number below another, counted.
  multiples : (k : ℕ) → length (filter is_multiple (below k)) * s ≤ k + (s - 1)
  unfolding below
  multiples zero = omega arith
  multiples (suc k) = elim (Bool-cases (k % s == 0)) [
    | inr other ↦ rw other (omega (arith, multiples k))
    | inl on ↦
        rw on (one_more (length (filter is_multiple (below k))) (k / s) (whole on) (multiples k))
  ]
    where
      whole : k % s == 0 ≡ true → k ≡ (k / s) * s
      whole e = grind arith

      one_more : (c q : ℕ) → k ≡ q * s → c * s ≤ k + (s - 1) → suc c * s ≤ suc k + (s - 1)
      one_more c q e h =
          let few = fewer c q (omega (arith, e)) in omega (arith, e, scaled c q few, suc_mul c)

-- Seven times the distance of the labels reaches the last day.
sevenths : (k : ℕ) → (1 ≤ ceil_div (suc k) 7) × (suc k ≤ 7 * ceil_div (suc k) 7)
unfolding ceil_div
sevenths k = omega arith

at_most_seven : (s : ℕ) → 1 ≤ s → (c n : ℕ) → n ≤ 7 * s → c * s ≤ n + (s - 1) → c ≤ 7
at_most_seven s h c n k l = fewer s h c 7 (omega arith)

module _ (p : ℕ → Bool) (l : ℕ) where
  abbrev or_last : ℕ → Bool
  or_last i = p i || i == l

  none_last : (n : ℕ) → n ≤ l → length (filter or_last (below n)) ≤ length (filter p (below n))
  unfolding below
  none_last zero h = omega arith
  none_last (suc n) h = ground (arith, none_last n)

  -- At most one index more than those that pass the first test.
  one_last : (n : ℕ) → length (filter or_last (below n)) ≤ length (filter p (below n)) + 1
  unfolding below
  one_last zero = omega arith
  one_last (suc n) = ground (arith, one_last n, none_last n)

-- The chart writes at most eight labels, and the last day's is among them.
pub labelled-IsShort : (n : ℕ) → (length (labelled n) ≤ 8) × (1 ≤ n → IsIn (n - 1) (labelled n))
unfolding labelled is_labelled below
labelled-IsShort n = (short n, last n)
  where
    eight : (c d : ℕ) → c ≤ 7 → d ≤ c + 1 → d ≤ 8
    eight c d h k = omega arith

    short : (k : ℕ) → length (labelled k) ≤ 8
    short zero = omega arith
    short (suc k) =
        let s = ceil_div (suc k) 7 in
        let (pos, covers) = sevenths k in
        let few = at_most_seven s pos _ (suc k) covers (multiples s pos (suc k)) in
        eight _ _ few (one_last (is_multiple s pos) (suc k - 1) (suc k))

    last : (k : ℕ) → 1 ≤ k → IsIn (k - 1) (labelled k)
    last zero h = absurd (omega arith)
    last (suc k) h =
        (IsIn-filter (is_labelled (suc k)) (suc k - 1) (below (suc k))).1
          (inl (omega arith), ground arith)
