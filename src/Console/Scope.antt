-- ===== src/Console/Scope.antt =====
-- web/providers/SessionProvider.tsx: the organization that the console is scoped to.
use signet_platform.Prelude.{
  ◌≡◌, refl, sym, ap, ◌∙◌, true, Option, none, some, List, [], ◌∷◌, find, Bool-cases, inl, inr,
}
use signet_platform.Prelude.Text.{Str, ◌===◌, eq_sound, eq_refl, truthy}
use signet_platform.Types.Account.{Organization, Session}
use signet_platform.Console.{Console, apply, active_org, remembered, has_org, chosen_org, first_org}

-- The organization found by its identifier.
pub find-has_org :
    (i : Str) (orgs : List Organization)
    → has_org i orgs ≡ true
    → (p : Organization) × (find (λ (o : Organization). o.id === i) orgs ≡ some p) × (p.id ≡ i)
unfolding has_org
find-has_org i [] h = absurd (cc h)
find-has_org i (o ∷ orgs) h = elim (Bool-cases (o.id === i)) [
  | inl here ↦ (o, simp here, eq_sound o.id i here)
  | inr other ↦
      let (p, e, same) = find-has_org i orgs (simp other at h) in (p, simp (other, e), same)
]

-- The chosen identifier is that of an organization in a list that is not empty.
chosen_org-has_org :
    (r : Option Str) (o : Organization) (rest : List Organization)
    → (i : Str) × (chosen_org r (o ∷ rest) ≡ some i) × (has_org i (o ∷ rest) ≡ true)
unfolding chosen_org first_org has_org
chosen_org-has_org none o rest = (o.id, refl, simp (eq_refl o.id))
chosen_org-has_org (some i) o rest = elim (Bool-cases (has_org i (o ∷ rest))) [
  | inl there ↦ (i, simp (there, has_org), there)
  | inr gone ↦ (o.id, simp (gone, has_org), simp (eq_refl o.id))
]

chosen_org-kept :
    (r : Option Str) (j : Str) (orgs : List Organization)
    → r ≡ some j
    → has_org j orgs ≡ true
    → chosen_org r orgs ≡ some j
unfolding chosen_org
chosen_org-kept r j orgs e h = rw e (rw h refl)

pub active_org-found :
    (c : Console) (i : Str) (p : Organization)
    → c.active_org_id ≡ some i
    → find (λ (o : Organization). o.id === i) c.organizations ≡ some p
    → active_org c ≡ some p
unfolding active_org
active_org-found c i p e h = rw e h

-- A console that a member's session is applied to is scoped to one of the session's organizations:
-- to the remembered one, if the user still belongs to it.
pub apply-IsScoped :
    (s : Session) (c : Console) (o : Organization) (rest : List Organization)
    → s.organizations ≡ o ∷ rest
    → (p : Organization) × (active_org (apply s c) ≡ some p)
      × (has_org p.id s.organizations ≡ true)
      × ((i : Str) → truthy (remembered c) ≡ some i → has_org i s.organizations ≡ true → p.id ≡ i)
unfolding apply
apply-IsScoped s c o rest e =
    let (i, chosen, there) = chosen_org-has_org (truthy (remembered c)) o rest in
    let at : chosen_org (truthy (remembered c)) s.organizations ≡ some i =
      ap (chosen_org (truthy (remembered c))) e ∙ chosen in
    let (p, found, same) = find-has_org i s.organizations (ap (has_org i) e ∙ there) in
    (
      p,
      active_org-found (apply s c) i p at found,
      ap (λ x. has_org x s.organizations) same ∙ ap (has_org i) e ∙ there,
      λ j r h.
          same ∙ of_some (sym at ∙ chosen_org-kept (truthy (remembered c)) j s.organizations r h),
    )
  where
    of_some : {x y : Str} → some x ≡ some y → x ≡ y
    of_some q = cc q
