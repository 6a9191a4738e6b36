-- ===== src/Operators.antt =====
-- web/lib/operators.ts: nodes grouped by the operator that runs them.
pub mod Partition
pub mod Label
use signet_platform.Prelude.{
  ℕ, Bool, true, false, ◌||◌, ◌&&◌, Option, none, some, List, [], ◌∷◌, ◌++◌, map, if◌then◌else◌,
  length, filter, find, all, ◌==◌,
}
use signet_platform.Prelude.Text.{Str, codes, ◌===◌, to_lower, truthy, starts_with}
use signet_platform.Prelude.Space.{is_space, trim}
use signet_platform.Prelude.Decimal.{to_decimal}
use signet_platform.Types.Group.{NodeOperator, Category}

pub record OperatorGroup : Type 0 where
  pub address : Str
  pub label : Str
  pub nodes : List NodeOperator
  pub online_count : ℕ
  pub verified : Bool
  pub category : Category
  pub jurisdiction : Str
  pub description : Str
  pub logo_url : Option Str
  pub website_url : Option Str

-- `/[—–-]/`
abbrev is_dash : ℕ → Bool
is_dash c = c == 8212 || c == 8211 || c == 45

-- Whether `/\s*[—–-]\s/` matches at the start.
dash_follows : Str → Bool
unfolding is_space
dash_follows [] = false
dash_follows (c ∷ []) = false
dash_follows (c ∷ d ∷ s) =
    let later = dash_follows (d ∷ s) in (is_dash c && is_space d) || (is_space c && later)

-- `name.split(/\s+[—–-]\s+/)[0]`: the text before the first place where the expression matches.
unfoldable pub before_dash : Str → Str
unfolding dash_follows is_space
before_dash [] = []
before_dash (c ∷ s) =
    let rest = before_dash s in if is_space c && dash_follows s then [] else c ∷ rest

-- The candidate, if every name starts with it.
unfoldable pub shared_label : NodeOperator → List NodeOperator → Option Str → Str
unfolding starts_with
shared_label first nodes none = first.name
shared_label first nodes (some candidate) =
    if all (λ (n : NodeOperator). starts_with n.name candidate) nodes then candidate else first.name

unfoldable pub operator_label : List NodeOperator → Str
unfolding before_dash trim shared_label
operator_label [] = codes "Unknown operator"
operator_label (first ∷ []) = first.name
operator_label (first ∷ second ∷ more) =
    shared_label first (first ∷ second ∷ more) (truthy (some (trim (before_dash first.name))))

-- An entry of the map `byOperator`, whose list is never empty.
pub record Entry : Type 0 where
  pub key : Str
  pub first : NodeOperator
  pub more : List NodeOperator

abbrev pub members : Entry → List NodeOperator
members e = e.first ∷ e.more

-- `(node.operator_address || node.address).toLowerCase()`
unfoldable pub operator_key : NodeOperator → Str
operator_key n = to_lower (elim (truthy n.operator_address) [ none ↦ n.address | some a ↦ a ])

-- `existing.push(node)` or `byOperator.set(key, [node])`
unfoldable pub insert : NodeOperator → List Entry → List Entry
unfolding ◌===◌ operator_key
insert n [] = record { key = operator_key n; first = n; more = [] } ∷ []
insert n (e ∷ es) =
    let rest = insert n es in
    if e.key === operator_key n then record e { more = e.more ++ n ∷ [] } ∷ es else e ∷ rest

-- The loop over the nodes.
unfoldable pub insert_all : List NodeOperator → List Entry → List Entry
unfolding insert
insert_all [] es = es
insert_all (n ∷ ns) es = insert_all ns (insert n es)

abbrev is_online : NodeOperator → Bool
is_online n = elim n.health [ none ↦ false | some h ↦ h.online ]

abbrev has_some : Option Str → Bool
has_some o = elim (truthy o) [ none ↦ false | some s ↦ true ]

-- `group.find((n) => n.url)?.url ?? null`
abbrev first_url : (NodeOperator → Option Str) → List NodeOperator → Option Str
first_url url nodes = elim (find (λ n. has_some (url n)) nodes) [ none ↦ none | some n ↦ url n ]

unfoldable pub to_group : Entry → OperatorGroup
unfolding operator_label
to_group e = record {
  address = e.key;
  label = operator_label (members e);
  nodes = members e;
  online_count = length (filter is_online (members e));
  verified = all (λ (n : NodeOperator). n.verified) (members e);
  category = e.first.category;
  jurisdiction = e.first.jurisdiction;
  description = e.first.description;
  logo_url = first_url (λ n. n.logo_url) (members e);
  website_url = first_url (λ n. n.website_url) (members e);
}

unfoldable pub group_by_operator : List NodeOperator → List OperatorGroup
unfolding insert_all to_group
group_by_operator nodes = map to_group (insert_all nodes [])

abbrev plural : Str → ℕ → Str
plural word n = to_decimal n ++ codes " " ++ word ++ (if n == 1 then [] else codes "s")

unfoldable pub describe_fleet : ℕ → ℕ → Str
describe_fleet node_count operator_count =
    plural (codes "node") node_count ++ codes " · " ++ plural (codes "operator") operator_count
