-- ===== src/Operators/Partition.antt =====
-- web/lib/operators.ts: `groupByOperator` divides the nodes among the operators.
use mathlib.Core.List.{append_assoc}
use signet_platform.Prelude.{
  ℕ, suc, ◌+◌, ◌≡◌, refl, sym, ap, ◌∙◌, Bool, true, false, List, [], ◌∷◌, ◌++◌, map, if◌then◌else◌,
  length, filter, All, arith, Bool-cases, inl, inr, length-append,
}
use signet_platform.Prelude.Text.{Str, ◌===◌, eq_sound, eq_refl}
use signet_platform.Types.Group.{NodeOperator}
use signet_platform.Operators.{
  OperatorGroup, Entry, operator_key, insert, insert_all, to_group, group_by_operator,
}

-- The nodes of the group at an address, none if there is no such group.
unfoldable pub nodes_of : Str → List OperatorGroup → List NodeOperator
unfolding ◌===◌
nodes_of k [] = []
nodes_of k (g ∷ gs) = if g.address === k then g.nodes else nodes_of k gs

-- Every address stands once.
abbrev pub IsDistinct : List OperatorGroup → Type 0
IsDistinct [] = Unit
IsDistinct (g ∷ gs) =
    All (λ (h : OperatorGroup). h.address === g.address ≡ false) gs × IsDistinct gs

abbrev pub total : List OperatorGroup → ℕ
total [] = 0
total (g ∷ gs) = length g.nodes + total gs

abbrev groups : List Entry → List OperatorGroup
groups es = map to_group es

abbrev just_if : Bool → NodeOperator → List NodeOperator
just_if b n = if b then n ∷ [] else []

append_nil : {A : Type 0} (xs : List A) → xs ++ [] ≡ xs
append_nil [] = refl
append_nil (x ∷ xs) = ap (λ l. x ∷ l) (append_nil xs)

same_key : (a b k : Str) → a === b ≡ true → b === k ≡ a === k
same_key a b k h = ap (λ x. x === k) (sym (eq_sound a b h))

other_key : (a b k : Str) → a === b ≡ false → a === k ≡ true → b === k ≡ false
other_key a b k h e = elim (Bool-cases (b === k)) [
  | inl same ↦ absurd (
      true≢false
        (sym (eq_refl a) ∙ ap (λ x. a === x) (eq_sound a k e ∙ sym (eq_sound b k same)) ∙ h))
  | inr other ↦ other
]
  where
    true≢false : true ≡ false → ⊥
    true≢false x = cc x

eq_sym_false : (a b : Str) → a === b ≡ false → b === a ≡ false
eq_sym_false a b h = other_key a b a h (eq_refl a)

nodes_of-insert :
    (k : Str) (n : NodeOperator) (es : List Entry)
    → nodes_of k (groups (insert n es)) ≡ nodes_of k (groups es) ++ just_if (operator_key n === k) n
unfolding nodes_of insert to_group
nodes_of-insert k n [] = refl
nodes_of-insert k n (e ∷ es) = elim (Bool-cases (e.key === operator_key n)) [
  | inl same ↦ elim (Bool-cases (e.key === k)) [
    | inl here ↦ simp (same, here, same_key e.key (operator_key n) k same ∙ here)
    | inr elsewhere ↦
        simp (same, elsewhere, same_key e.key (operator_key n) k same ∙ elsewhere, append_nil)
  ]
  | inr other ↦ elim (Bool-cases (e.key === k)) [
    | inl here ↦ simp (other, here, other_key e.key (operator_key n) k other here, append_nil)
    | inr elsewhere ↦ simp (other, elsewhere, nodes_of-insert k n es)
  ]
]

nodes_of-insert_all :
    (k : Str) (ns : List NodeOperator) (es : List Entry)
    → nodes_of k (groups (insert_all ns es))
      ≡ nodes_of k (groups es) ++ filter (λ n. operator_key n === k) ns
unfolding insert_all
nodes_of-insert_all k [] es = sym (append_nil _)
nodes_of-insert_all k (n ∷ ns) es = elim (Bool-cases (operator_key n === k)) [
  | inl here ↦
      simp (nodes_of-insert_all k ns (insert n es), nodes_of-insert k n es, here, append_assoc)
  | inr elsewhere ↦
      simp (nodes_of-insert_all k ns (insert n es), nodes_of-insert k n es, elsewhere, append_nil)
]

total-insert :
    (n : NodeOperator) (es : List Entry) → total (groups (insert n es)) ≡ suc (total (groups es))
unfolding insert to_group
total-insert n [] = refl
total-insert n (e ∷ es) = elim (Bool-cases (e.key === operator_key n)) [
  | inl same ↦ simp (same, length-append) (omega arith)
  | inr other ↦ simp (other, total-insert n es) (omega arith)
]

total-insert_all :
    (ns : List NodeOperator) (es : List Entry)
    → total (groups (insert_all ns es)) ≡ length ns + total (groups es)
unfolding insert_all
total-insert_all [] es = omega arith
total-insert_all (n ∷ ns) es = omega (arith, total-insert_all ns (insert n es), total-insert n es)

abbrev IsAbsent : Str → List OperatorGroup → Type 0
IsAbsent k gs = All (λ (h : OperatorGroup). h.address === k ≡ false) gs

IsAbsent-insert :
    (k : Str) (n : NodeOperator) (es : List Entry)
    → operator_key n === k ≡ false
    → IsAbsent k (groups es)
    → IsAbsent k (groups (insert n es))
unfolding insert to_group
IsAbsent-insert k n [] away h = (away, tt)
IsAbsent-insert k n (e ∷ es) away (here, h) = elim (Bool-cases (e.key === operator_key n)) [
  | inl same ↦ simp same (here, h)
  | inr other ↦ simp other (here, IsAbsent-insert k n es away h)
]

IsDistinct-insert :
    (n : NodeOperator) (es : List Entry)
    → IsDistinct (groups es)
    → IsDistinct (groups (insert n es))
unfolding insert to_group
IsDistinct-insert n [] h = (tt, tt)
IsDistinct-insert n (e ∷ es) (away, h) = elim (Bool-cases (e.key === operator_key n)) [
  | inl same ↦ simp same (away, h)
  | inr other ↦ simp other (
    IsAbsent-insert e.key n es (eq_sym_false e.key (operator_key n) other) away,
    IsDistinct-insert n es h,
  )
]

IsDistinct-insert_all :
    (ns : List NodeOperator) (es : List Entry)
    → IsDistinct (groups es)
    → IsDistinct (groups (insert_all ns es))
unfolding insert_all
IsDistinct-insert_all [] es h = h
IsDistinct-insert_all (n ∷ ns) es h =
    IsDistinct-insert_all ns (insert n es) (IsDistinct-insert n es h)

-- The groups divide the nodes: no two groups have the same address, the group at an address holds
-- exactly the nodes of that operator in the order of the list, and the groups' sizes add up to the
-- number of nodes.
pub group_by_operator-IsPartition :
    (ns : List NodeOperator)
    → IsDistinct (group_by_operator ns)
      × ((k : Str) → nodes_of k (group_by_operator ns) ≡ filter (λ n. operator_key n === k) ns)
      × (total (group_by_operator ns) ≡ length ns)
unfolding group_by_operator nodes_of
group_by_operator-IsPartition ns = (
  IsDistinct-insert_all ns [] tt,
  λ k. nodes_of-insert_all k ns [],
  omega (arith, total-insert_all ns []),
)
