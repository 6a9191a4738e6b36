-- ===== src/Nav/Active.antt =====
-- web/components/console/nav.ts: on which pages an item of the navigation is active.
use signet_platform.Prelude.{
  ◌≡◌, refl, ap, ◌∙◌, ◌⊎◌, inl, inr, ◌↔◌, Bool, true, false, ◌||◌, [], ◌∷◌, ◌++◌, arith, Bool-cases,
}
use signet_platform.Prelude.Text.{Str, codes, ◌===◌, eq_sound, eq_refl, starts_with}
use signet_platform.Nav.{NavItem, is_active}

starts_with_sound : (s p : Str) → starts_with s p ≡ true → (rest : Str) × (s ≡ p ++ rest)
unfolding starts_with
starts_with_sound s [] h = (s, refl)
starts_with_sound [] (d ∷ p) h = absurd (cc h)
starts_with_sound (c ∷ s) (d ∷ p) h =
    let (rest, e) = starts_with_sound s p (ground arith) in
    (rest, ap (λ x. x ∷ s) (ground arith) ∙ ap (λ t. d ∷ t) e)

starts_with-append : (p rest : Str) → starts_with (p ++ rest) p ≡ true
unfolding starts_with
starts_with-append [] rest = refl
starts_with-append (c ∷ p) rest = ground (arith, starts_with-append p rest)

-- The page of the item, or one below it.
abbrev pub IsUnder : Str → NavItem → Type 0
IsUnder path i =
    (path ≡ i.href) ⊎ ((i.exact ≡ false) × (rest : Str) × (path ≡ (i.href ++ codes "/") ++ rest))

to_under : (path : Str) (i : NavItem) → is_active path i ≡ true → IsUnder path i
unfolding is_active
to_under path i h = elim (Bool-cases i.exact) [
  | inl exact ↦ inl (eq_sound path i.href (simp exact at h))
  | inr below ↦ elim (Bool-cases (path === i.href)) [
    | inl here ↦ inl (eq_sound path i.href here)
    | inr there ↦
        let (rest, e) = starts_with_sound path (i.href ++ codes "/") (simp (below, there) at h) in
        inr (below, rest, e)
  ]
]

of_under : (path : Str) (i : NavItem) → IsUnder path i → is_active path i ≡ true
unfolding is_active
of_under path i (inl e) = elim (Bool-cases i.exact) [
  | inl exact ↦ simp (exact, e, eq_refl)
  | inr below ↦ simp (below, e, eq_refl)
]
of_under path i (inr (below, rest, e)) =
    simp (below, e, starts_with-append (i.href ++ codes "/") rest) (or_true _)
  where
    or_true : (b : Bool) → b || true ≡ true
    or_true b = ground arith

-- An item is active exactly on its own page and, unless it is exact, on the pages below it.
pub is_active-IsUnder : (path : Str) (i : NavItem) → (is_active path i ≡ true) ↔ IsUnder path i
is_active-IsUnder path i = (to_under path i, of_under path i)
