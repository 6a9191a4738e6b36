-- ===== src/Marketplace.antt =====
-- web/app/(marketing)/marketplace/page.tsx: the filters and the order of the directory of nodes.
pub mod Sorted
pub mod Listed
use signet_platform.Prelude.{
  ℕ, suc, Bool, true, false, not, ◌&&◌, ◌||◌, ltb, ◌==◌, Option, none, some, List, [], ◌∷◌, filter,
  if◌then◌else◌,
}
use signet_platform.Prelude.Text.{Str, starts_with, is_empty}
use signet_platform.Types.Group.{
  Category, enterprise, infrastructure, custodian, independent, signet, NodeOperator, NodeHealth,
}
use signet_platform.Operators.{OperatorGroup, group_by_operator}

pub data SortKey : Type 0 where
  name uptime groups newest : SortKey

-- What the page takes from the browser: `toLowerCase`, `a.localeCompare(b) > 0`, and
-- `new Date(iso).getTime()` of the times that the directory gives.
pub record Browser : Type 0 where
  pub lower_case : Str → Str
  pub collates_after : Str → Str → Bool
  pub time_of : Str → ℕ

-- The page's choices. `none` is the category "", which stands for all.
pub record Filters : Type 0 where
  pub category : Option Category
  pub search : Str
  pub open_only : Bool
  pub online_only : Bool

unfoldable pub category_code : Category → ℕ
category_code enterprise = 0
category_code infrastructure = 1
category_code custodian = 2
category_code independent = 3
category_code signet = 4

-- `category && o.category !== category`
unfoldable pub other_category : Option Category → NodeOperator → Bool
unfolding category_code
other_category none o = false
other_category (some c) o = not (category_code o.category == category_code c)

-- `o.health?.online`, as a condition
unfoldable pub is_online : NodeOperator → Bool
is_online o = elim o.health [ none ↦ false | some h ↦ h.online ]

-- `o.is_open !== true`
unfoldable pub is_open : NodeOperator → Bool
is_open o = elim o.is_open [ none ↦ false | some b ↦ b ]

-- `s.includes(q)`
unfoldable pub includes : Str → Str → Bool
unfolding starts_with
includes [] q = is_empty q
includes (c ∷ s) q = starts_with (c ∷ s) q || includes s q

-- `o.health?.uptime_pct_24h ?? -1`, one higher
unfoldable pub uptime_rank : NodeOperator → ℕ
uptime_rank o = elim o.health [
  | none ↦ 0
  | some h ↦ elim h.uptime_pct_24h [ none ↦ 0 | some p ↦ suc p ]
]

-- `a !== b`
unfoldable pub differ : Bool → Bool → Bool
differ true b = not b
differ false b = b

module _ (b : Browser) where
  unfoldable pub mentions : Str → NodeOperator → Bool
  unfolding includes
  mentions search o =
      let q = b.lower_case search in
      includes (b.lower_case o.name) q
      || (includes (b.lower_case o.description) q
          || (includes (b.lower_case o.jurisdiction) q || includes (b.lower_case o.address) q))

  -- The test of the filter.
  unfoldable pub matches : Filters → NodeOperator → Bool
  unfolding other_category is_open is_online mentions
  matches f o =
      if other_category f.category o
      then false
      else if f.open_only && not (is_open o)
      then false
      else if f.online_only && not (is_online o)
      then false
      else if not (is_empty f.search) && not (mentions f.search o)
      then false
      else true

  -- `new Date(o.registered_at ?? 0).getTime()`
  unfoldable pub registered : NodeOperator → ℕ
  registered o = elim o.registered_at [ none ↦ 0 | some iso ↦ b.time_of iso ]

  -- Whether the comparison of two nodes is greater than 0.
  unfoldable pub comes_after : SortKey → NodeOperator → NodeOperator → Bool
  unfolding registered is_online uptime_rank differ
  comes_after name o p = b.collates_after o.name p.name
  comes_after groups o p = ltb o.group_count p.group_count
  comes_after newest o p = ltb (registered o) (registered p)
  comes_after uptime o p =
      if differ o.verified p.verified
      then not o.verified
      else if differ (is_online o) (is_online p)
      then is_online p
      else ltb (uptime_rank o) (uptime_rank p)

  -- `copy.sort(compare)`, which is stable.
  unfoldable pub insert : SortKey → NodeOperator → List NodeOperator → List NodeOperator
  unfolding comes_after
  insert key o [] = o ∷ []
  insert key o (p ∷ ps) =
      let rest = insert key o ps in if comes_after key o p then p ∷ rest else o ∷ p ∷ ps

  unfoldable pub sort_operators : List NodeOperator → SortKey → List NodeOperator
  unfolding insert
  sort_operators [] key = []
  sort_operators (o ∷ os) key = insert key o (sort_operators os key)

  -- `operators` and `groups`
  unfoldable pub operators : Filters → SortKey → Option (List NodeOperator) → List NodeOperator
  unfolding matches sort_operators
  operators f key directory =
      sort_operators (filter (matches f) (elim directory [ none ↦ [] | some os ↦ os ])) key

  unfoldable pub shown_groups : Filters → SortKey → Option (List NodeOperator) → List OperatorGroup
  unfolding operators
  shown_groups f key directory = group_by_operator (operators f key directory)
