-- ===== src/GroupPage/Members.antt =====
-- web/app/(console)/apps/[appId]/group/page.tsx: what the page shows of the group's members, and
-- which of its buttons can be used.
use signet_platform.Prelude.{
  ℕ, ◌+◌, ◌/◌, ◌≤◌, ◌≡◌, refl, subst, Bool, true, false, not, ◌||◌, Option, none, some, List, [],
  ◌∷◌, ◌++◌, ltb, ◌==◌, length, filter, any, IsIn, IsIn-filter, any_iff, ◌↔◌, if◌then◌else◌, arith,
  Option-cases, inl, inr,
}
use signet_platform.Prelude.Text.{Str, codes, to_lower, ◌===◌, eq_sound, eq_iff}
use signet_platform.Prelude.Decimal.{to_decimal}
use signet_platform.Types.Group.{NodeOperator}
use signet_platform.Types.GroupView.{GroupNode, NodeStatus, GroupView, active, pending, removing}
use signet_platform.Format.{Dates, countdown, readable_time}
use signet_platform.Format.Shown.{IsCounted, countdown-IsCounted}

-- `n.status === s`
is_status : NodeStatus → NodeStatus → Bool
is_status active active = true
is_status active r = false
is_status pending pending = true
is_status pending r = false
is_status removing removing = true
is_status removing r = false

unfoldable pub has_status : NodeStatus → GroupNode → Bool
unfolding is_status
has_status s n = is_status n.status s

abbrev pub with_status : NodeStatus → List GroupNode → List GroupNode
with_status s nodes = filter (has_status s) nodes

-- Whether an address is that of a member: the set holds the addresses in lower case.
unfoldable pub in_group : List GroupNode → Str → Bool
unfolding ◌===◌
in_group nodes address = any (λ n. to_lower n.address === to_lower address) nodes

unfoldable pub invitable : List GroupNode → List NodeOperator → List NodeOperator
unfolding in_group
invitable nodes operators = filter (λ o. not (in_group nodes o.address)) operators

-- `onchain?.threshold ?? app.threshold ?? 0`
unfoldable pub shown_threshold : GroupView → ℕ
shown_threshold view = elim view.onchain [
  | some o ↦ o.threshold
  | none ↦ elim view.app.threshold [ some t ↦ t | none ↦ 0 ]
]

-- `onchain?.is_operational ?? app.is_operational`
unfoldable pub operational : GroupView → Option Bool
operational view = elim view.onchain [
  | some o ↦ some o.is_operational
  | none ↦ view.app.is_operational
]

-- `formatDelay`, in which `Math.round` of a quotient takes a half upwards.
unfoldable pub format_delay : ℕ → Str
format_delay s =
    if s == 0
    then codes "None"
    else (if ltb s 3600
        then to_decimal ((s + 30) / 60) ++ codes " min"
        else (if ltb s 86_400
            then to_decimal ((s + 1800) / 3600) ++ codes " h"
            else to_decimal ((s + 43_200) / 86_400) ++ codes " d"))

-- Whether the button that executes a removal can be used, by the action under way.
unfoldable pub can_execute : Dates → ℕ → Option Str → GroupNode → Bool
unfolding countdown
can_execute dates now under_way n = not (
    elim under_way [ none ↦ false | some l ↦ true ]
    || elim (countdown dates now n.execute_after) [ none ↦ false | some s ↦ true ])

-- The button that executes a removal can be used only while no action is under way, and never before
-- the deadline of the removal, if that can be read.
pub can_execute-deadline :
    (dates : Dates) (now : ℕ) (under_way : Option Str) (n : GroupNode)
    → can_execute dates now under_way n ≡ true
    → (under_way ≡ none) × ((t : ℕ) → readable_time dates n.execute_after ≡ some t → t ≤ now)
unfolding can_execute
can_execute-deadline dates now under_way n h =
    elim (Option-cases (countdown dates now n.execute_after)) [
      | inl over ↦ (
        ground arith,
        subst (IsCounted (readable_time dates n.execute_after) now) over
            (countdown-IsCounted dates now n.execute_after),
      )
      | inr (left, e) ↦ absurd (ground arith)
    ]

-- A member has the address, whatever the case of its letters.
abbrev pub HasAddress : List GroupNode → Str → Type 0
HasAddress nodes address = (n : GroupNode) × IsIn n nodes × (to_lower n.address ≡ to_lower address)

in_group-HasAddress :
    (nodes : List GroupNode) (address : Str)
    → in_group nodes address ≡ true ↔ HasAddress nodes address
unfolding in_group
in_group-HasAddress nodes address =
    let test = any_iff (λ (n : GroupNode). to_lower n.address === to_lower address) nodes in
    (
      λ h. let (n, m, e) = test.0 h in (n, m, eq_sound _ _ e),
      λ h. test.1 (h.0, h.1, (eq_iff _ _).1 h.2),
    )

-- The operators that can be invited are those of the directory that are no members of the group.
pub invitable_iff :
    (nodes : List GroupNode) (operators : List NodeOperator) (o : NodeOperator)
    → IsIn o (invitable nodes operators) ↔ (IsIn o operators × (¬ (HasAddress nodes o.address)))
unfolding invitable
invitable_iff nodes operators o =
    let taken = IsIn-filter (λ (p : NodeOperator). not (in_group nodes p.address)) o operators in
    (
      λ m.
          let (k, h) = taken.0 m in
          (k, λ a. absurd (not_true h ((in_group-HasAddress nodes o.address).1 a))),
      λ m. taken.1 (m.0, outside (λ h. m.1 ((in_group-HasAddress nodes o.address).0 h))),
    )
  where
    not_true : {b : Bool} → not b ≡ true → b ≡ true → ⊥
    not_true {b = true} h e = cc h
    not_true {b = false} h e = cc e

    outside : {b : Bool} → (b ≡ true → ⊥) → not b ≡ true
    outside {b = true} h = absurd (h refl)
    outside {b = false} h = refl

is_status_iff : (r s : NodeStatus) → is_status r s ≡ true ↔ (r ≡ s)
unfolding is_status
is_status_iff active active = (λ h. refl, λ h. refl)
is_status_iff active pending = (λ h. cc h, λ h. cc h)
is_status_iff active removing = (λ h. cc h, λ h. cc h)
is_status_iff pending active = (λ h. cc h, λ h. cc h)
is_status_iff pending pending = (λ h. refl, λ h. refl)
is_status_iff pending removing = (λ h. cc h, λ h. cc h)
is_status_iff removing active = (λ h. cc h, λ h. cc h)
is_status_iff removing pending = (λ h. cc h, λ h. cc h)
is_status_iff removing removing = (λ h. refl, λ h. refl)

with_status_iff :
    (nodes : List GroupNode) (s : NodeStatus) (n : GroupNode)
    → IsIn n (with_status s nodes) ↔ (IsIn n nodes × (n.status ≡ s))
unfolding has_status
with_status_iff nodes s n =
    let taken = IsIn-filter (has_status s) n nodes in
    (
      λ m. let (k, h) = taken.0 m in (k, (is_status_iff n.status s).0 h),
      λ m. taken.1 (m.0, (is_status_iff n.status s).1 m.1),
    )

with_status-length :
    (nodes : List GroupNode)
    → length (with_status active nodes)
        + length (with_status pending nodes)
        + length (with_status removing nodes)
      ≡ length nodes
unfolding has_status is_status
with_status-length [] = omega arith
with_status-length (n ∷ ns) = ground (arith, with_status-length ns)

-- The page's three lists divide the members: each list has exactly the members of its status, and
-- together the lists are as long as the list of the members.
pub members_divided :
    (nodes : List GroupNode)
    → ((s : NodeStatus) (n : GroupNode)
        → IsIn n (with_status s nodes) ↔ (IsIn n nodes × (n.status ≡ s)))
      × (length (with_status active nodes)
            + length (with_status pending nodes)
            + length (with_status removing nodes)
          ≡ length nodes)
members_divided nodes = (with_status_iff nodes, with_status-length nodes)
