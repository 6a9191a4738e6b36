-- ===== src/Wizard/Bounds.antt =====
-- web/app/(console)/apps/new/page.tsx: the selection of nodes and its threshold.
use signet_platform.Prelude.{
  max, ◌≤◌, ◌≡◌, refl, sym, ap, ◌∙◌, Bool, true, false, not, ◌&&◌, ◌||◌, List, [], ◌∷◌, ◌++◌,
  if◌then◌else◌, length, filter, arith, Bool-cases, inl, inr,
}
use signet_platform.Prelude.Text.{Str, ◌===◌, eq_sound, eq_refl}
use signet_platform.Wizard.{Wizard, toggle, toggled, includes, clamp}

module _ (a b : Str) where
  pub includes-append : (xs : List Str) → includes (xs ++ a ∷ []) b ≡ includes xs b || a === b
  unfolding includes
  includes-append [] = ground arith
  includes-append (x ∷ xs) = ground (arith, includes-append xs)

  -- A selection without `a` has `b` if it had it and `b` is another.
  pub includes-filter :
      (xs : List Str) → includes (filter (λ c. not (c === a)) xs) b ≡ includes xs b && not (a === b)
  unfolding includes
  includes-filter [] = refl
  includes-filter (x ∷ xs) = elim (Bool-cases (x === a)) [
    | inl same ↦
        simp (same, includes-filter xs, ap (λ c. c === b) (eq_sound x a same))
          (by_cases (a === b) (includes xs b))
    | inr other ↦ elim (Bool-cases (x === b)) [
      | inl here ↦ simp (other, includes-filter xs, here) (sym (ap not (away other here)))
      | inr elsewhere ↦ simp (other, includes-filter xs, elsewhere)
    ]
  ]
    where
      by_cases : (p q : Bool) → q && not p ≡ (p || q) && not p
      by_cases p q = ground arith

      away : x === a ≡ false → x === b ≡ true → a === b ≡ false
      away h e = elim (Bool-cases (a === b)) [
        | inl s ↦ absurd (
            clash (sym (eq_refl x) ∙ ap (λ y. x === y) (eq_sound x b e ∙ sym (eq_sound a b s)) ∙ h))
        | inr n ↦ n
      ]
        where
          clash : true ≡ false → ⊥
          clash x = cc x

  -- A click on a node selects it if it was not selected and takes it out if it was, and leaves
  -- every other node as it was.
  pub includes-toggled :
      (xs : List Str)
      → includes (toggled xs a) b ≡ (if a === b then not (includes xs a) else includes xs b)
  unfolding toggled
  includes-toggled xs = elim (Bool-cases (includes xs a)) [
    | inl there ↦ simp (there, includes-filter xs) (taken (a === b) (includes xs b))
    | inr absent ↦ elim (Bool-cases (a === b)) [
      | inl same ↦ simp (absent, includes-append xs, same) (or_true (includes xs b))
      | inr other ↦ simp (absent, includes-append xs, other) (or_false (includes xs b))
    ]
  ]
    where
      taken : (p q : Bool) → q && not p ≡ (if p then false else q)
      taken p q = ground arith

      or_true : (q : Bool) → q || true ≡ true
      or_true q = ground arith

      or_false : (q : Bool) → q || false ≡ q
      or_false q = ground arith

-- After a click on a node the threshold is at least one and at most the number of selected nodes,
-- or one if none is left; a threshold that was within these bounds is kept.
pub toggle-IsBounded :
    (a : Str) (w : Wizard)
    → (1 ≤ (toggle a w).threshold)
      × ((toggle a w).threshold ≤ max (length (toggle a w).selected) 1)
      × (1 ≤ w.threshold
          → w.threshold ≤ length (toggle a w).selected
          → (toggle a w).threshold ≡ w.threshold)
unfolding toggle clamp
toggle-IsBounded a w = (omega arith, omega arith, λ h k. omega arith)
