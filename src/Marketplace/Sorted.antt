-- ===== src/Marketplace/Sorted.antt =====
-- web/app/(marketing)/marketplace/page.tsx: sortOperators orders the nodes and keeps them.
use mathlib.Core.List.{Perm}
use mathlib.Core.List.Perm
use signet_platform.Prelude.{
  ℕ, ◌≤◌, ◌≡◌, ◌⊎◌, inl, inr, Bool, true, false, not, List, [], ◌∷◌, All, Bool-cases, if◌then◌else◌,
  arith, ltb,
}
use signet_platform.Prelude.Text.{Str}
use signet_platform.Types.Group.{NodeOperator}
use signet_platform.Marketplace.{
  SortKey, name, uptime, groups, newest, Browser, is_online, uptime_rank, registered, comes_after,
  insert, sort_operators, differ,
}

-- The order by verification, then by liveness, then by uptime: higher first.
abbrev pub Leads : Bool → Bool → Bool → Bool → ℕ → ℕ → Type 0
Leads v v' n n' u u' =
    ((v ≡ true) × (v' ≡ false)) ⊎ ((v ≡ v') × (((n ≡ true) × (n' ≡ false)) ⊎ ((n ≡ n') × (u' ≤ u))))

abbrev lags : Bool → Bool → Bool → Bool → ℕ → ℕ → Bool
lags v v' n n' u u' = if differ v v' then not v else if differ n n' then n' else ltb u u'

leads : (v v' n n' : Bool) (u u' : ℕ) → lags v v' n n' u u' ≡ false → Leads v v' n n' u u'
unfolding differ
leads v v' n n' u u' h = ground arith

led : (v v' n n' : Bool) (u u' : ℕ) → lags v v' n n' u u' ≡ true → Leads v' v n' n u' u
unfolding differ
led v v' n n' u u' h = ground arith

Leads-trans :
    (v v' x n n' y : Bool) (u u' z : ℕ)
    → Leads v v' n n' u u'
    → Leads v' x n' y u' z
    → Leads v x n y u z
Leads-trans v v' x n n' y u u' z h k = ground arith

module _ (b : Browser) where
  -- The order that a choice stands for.
  abbrev pub Precedes : SortKey → NodeOperator → NodeOperator → Type 0
  Precedes name o p = b.collates_after o.name p.name ≡ false
  Precedes groups o p = p.group_count ≤ o.group_count
  Precedes newest o p = registered b p ≤ registered b o
  Precedes uptime o p =
      Leads o.verified p.verified (is_online o) (is_online p) (uptime_rank o) (uptime_rank p)

  abbrev pub IsSorted : SortKey → List NodeOperator → Type 0
  IsSorted key [] = Unit
  IsSorted key (o ∷ os) = All (Precedes key o) os × IsSorted key os

  -- What the comparison of names is taken to be: the order of a collation.
  pub record IsCollation : Type 0 where
    pub asym : (s t : Str) → b.collates_after s t ≡ true → b.collates_after t s ≡ false
    pub trans :
        (s t u : Str)
        → b.collates_after s t ≡ false
        → b.collates_after t u ≡ false
        → b.collates_after s u ≡ false

  module _ (c : IsCollation) where
    before : (key : SortKey) (o p : NodeOperator) → comes_after b key o p ≡ false → Precedes key o p
    unfolding comes_after
    before name o p h = h
    before groups o p h = ground arith
    before newest o p h = ground arith
    before uptime o p h =
        leads o.verified p.verified (is_online o) (is_online p) (uptime_rank o) (uptime_rank p) h

    behind : (key : SortKey) (o p : NodeOperator) → comes_after b key o p ≡ true → Precedes key p o
    unfolding comes_after
    behind name o p h = c.asym o.name p.name h
    behind groups o p h = ground arith
    behind newest o p h = ground arith
    behind uptime o p h =
        led o.verified p.verified (is_online o) (is_online p) (uptime_rank o) (uptime_rank p) h

    Precedes-trans :
        (key : SortKey) (o p q : NodeOperator)
        → Precedes key o p
        → Precedes key p q
        → Precedes key o q
    Precedes-trans name o p q h k = c.trans o.name p.name q.name h k
    Precedes-trans groups o p q h k = omega arith
    Precedes-trans newest o p q h k = omega arith
    Precedes-trans uptime o p q h k =
        Leads-trans o.verified p.verified q.verified (is_online o) (is_online p) (is_online q)
          (uptime_rank o) (uptime_rank p) (uptime_rank q) h k

    All-Precedes :
        (key : SortKey) (o p : NodeOperator) (ps : List NodeOperator)
        → Precedes key o p
        → All (Precedes key p) ps
        → All (Precedes key o) ps
    All-Precedes key o p [] h k = tt
    All-Precedes key o p (q ∷ qs) h (k, ks) =
        (Precedes-trans key o p q h k, All-Precedes key o p qs h ks)

    All-insert :
        (key : SortKey) (P : NodeOperator → Type 0) (o : NodeOperator) (ps : List NodeOperator)
        → P o
        → All P ps
        → All P (insert b key o ps)
    unfolding insert
    All-insert key P o [] h k = (h, tt)
    All-insert key P o (p ∷ ps) h (k, ks) = elim (Bool-cases (comes_after b key o p)) [
      | inl after ↦ rw (after, insert) (k, All-insert key P o ps h ks)
      | inr not_after ↦ rw (not_after, insert) (h, (k, ks))
    ]

    insert-IsSorted :
        (key : SortKey) (o : NodeOperator) (ps : List NodeOperator)
        → IsSorted key ps
        → IsSorted key (insert b key o ps)
    unfolding insert
    insert-IsSorted key o [] h = (tt, tt)
    insert-IsSorted key o (p ∷ ps) (k, ks) = elim (Bool-cases (comes_after b key o p)) [
      | inl after ↦
          rw (after, insert)
            (
              All-insert key (Precedes key p) o ps (behind key o p after) k,
              insert-IsSorted key o ps ks,
            )
      | inr not_after ↦
          rw (not_after, insert)
            (
              (before key o p not_after, All-Precedes key o p ps (before key o p not_after) k),
              (k, ks),
            )
    ]

    pub sort_operators-IsSorted :
        (key : SortKey) (os : List NodeOperator) → IsSorted key (sort_operators b os key)
    unfolding sort_operators
    sort_operators-IsSorted key [] = tt
    sort_operators-IsSorted key (o ∷ os) =
        insert-IsSorted key o (sort_operators b os key) (sort_operators-IsSorted key os)

  insert-perm :
      (key : SortKey) (o : NodeOperator) (ps : List NodeOperator)
      → Perm (insert b key o ps) (o ∷ ps)
  unfolding insert
  insert-perm key o [] = Perm.rfl
  insert-perm key o (p ∷ ps) = elim (Bool-cases (comes_after b key o p)) [
    | inl after ↦
        rw (after, insert) (Perm.trans (Perm.cons p (insert-perm key o ps)) (Perm.swap o p ps))
    | inr not_after ↦ rw (not_after, insert) Perm.rfl
  ]

  pub sort_operators-perm :
      (key : SortKey) (os : List NodeOperator) → Perm (sort_operators b os key) os
  unfolding sort_operators
  sort_operators-perm key [] = Perm.rfl
  sort_operators-perm key (o ∷ os) =
      Perm.trans (insert-perm key o (sort_operators b os key))
        (Perm.cons o (sort_operators-perm key os))
