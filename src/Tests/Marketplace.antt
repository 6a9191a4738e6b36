-- ===== src/Tests/Marketplace.antt =====
-- Tests of the directory of nodes.
use mathlib.Core.List.{Perm}
use signet_platform.Prelude.{
  ℕ, ltb, ◌≡◌, refl, ◌↔◌, Bool, true, false, none, some, Option, List, [], ◌∷◌, map, filter, arith,
}
use signet_platform.Prelude.Text.{Str, codes, to_lower}
use signet_platform.Types.Group.{NodeOperator}
use signet_platform.Marketplace.{uptime, groups, Browser, Filters, matches, operators}
use signet_platform.Marketplace.Sorted.{IsCollation, IsSorted}
use signet_platform.Marketplace.Listed.{Meets, operators-IsListed}
use signet_platform.Tests.GroupPage.{operator}

-- A browser that compares texts by their first character.
abbrev first : Str → ℕ
first [] = 0
first (c ∷ s) = c

abbrev browser : Browser
browser = record {
  lower_case = to_lower;
  collates_after = λ s t. ltb (first t) (first s);
  time_of = λ s. 0;
}

collation : IsCollation browser
collation = record { asym = λ s t h. ground arith; trans = λ s t u h k. ground arith }

abbrev directory : List NodeOperator
directory =
    record (operator (codes "0x01")) { is_open = some true; group_count = 1 }
    ∷ record (operator (codes "0x02")) { group_count = 9 }
    ∷ record (operator (codes "0x03")) { is_open = some true; group_count = 4; verified = false }
    ∷ []

abbrev choices : Filters
choices = record { category = none; search = codes "NODE"; open_only = true; online_only = false }

operators-IsListed_example :
    Perm
      (operators browser choices groups (some directory))
      (filter (matches browser choices) directory)
    × ((o : NodeOperator) → (matches browser choices o ≡ true) ↔ Meets browser choices o)
    × IsSorted browser groups (operators browser choices groups (some directory))
operators-IsListed_example = operators-IsListed browser collation choices groups directory

by_groups :
    map (λ (o : NodeOperator). o.address) (operators browser choices groups (some directory))
    ≡ codes "0x03" ∷ codes "0x01" ∷ []
unfolding operators signet_platform.Prelude.Text.lower
by_groups = refl

by_uptime :
    map (λ (o : NodeOperator). o.address) (operators browser choices uptime (some directory))
    ≡ codes "0x01" ∷ codes "0x03" ∷ []
unfolding operators signet_platform.Prelude.Text.lower
by_uptime = refl
