-- ===== src/Operators/Label.antt =====
-- web/lib/operators.ts: what `operatorLabel` shows for an operator.
use signet_platform.Prelude.{
  ◌≡◌, refl, Bool, true, List, [], ◌∷◌, All, arith, Bool-cases, inl, inr, ◌⊎◌, all, Option, none,
  some,
}
use signet_platform.Prelude.Text.{Str, starts_with, truthy}
use signet_platform.Prelude.Space.{trim}
use signet_platform.Types.Group.{NodeOperator}
use signet_platform.Operators.{operator_label, shared_label, before_dash}

All-all : {A : Type 0} (p : A → Bool) (xs : List A) → all p xs ≡ true → All (λ x. p x ≡ true) xs
All-all p [] h = tt
All-all p (x ∷ xs) h = (ground arith, All-all p xs (ground arith))

abbrev pub IsShared : Str → List NodeOperator → Type 0
IsShared label nodes = All (λ (n : NodeOperator). starts_with n.name label ≡ true) nodes

shared_label-IsShared :
    (first : NodeOperator) (nodes : List NodeOperator) (c : Option Str)
    → (shared_label first nodes c ≡ first.name)
      ⊎ ((c ≡ some (shared_label first nodes c)) × IsShared (shared_label first nodes c) nodes)
unfolding shared_label
shared_label-IsShared first nodes none = inl refl
shared_label-IsShared first nodes (some c) =
    elim (Bool-cases (all (λ (n : NodeOperator). starts_with n.name c) nodes)) [
      | inl h ↦ inr (simp h, simp h (All-all (λ (n : NodeOperator). starts_with n.name c) nodes h))
      | inr h ↦ inl (simp h)
    ]

-- The label of an operator is the name of its first node, or else it is that name's part before a
-- dash, which is not empty and with which the name of every node of the operator starts.
pub operator_label-IsShared :
    (first : NodeOperator) (rest : List NodeOperator)
    → (operator_label (first ∷ rest) ≡ first.name)
      ⊎ ((truthy (some (trim (before_dash first.name))) ≡ some (operator_label (first ∷ rest)))
          × IsShared (operator_label (first ∷ rest)) (first ∷ rest))
unfolding operator_label
operator_label-IsShared first [] = inl refl
operator_label-IsShared first (second ∷ more) =
    shared_label-IsShared first (first ∷ second ∷ more)
      (truthy (some (trim (before_dash first.name))))
