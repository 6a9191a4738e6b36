-- ===== src/Tests/Operators.antt =====
-- Tests of the grouping of nodes.
use signet_platform.Prelude.{
  ◌≡◌, refl, map, true, false, none, some, [], ◌∷◌, Option, filter, List, length, inr, ◌⊎◌,
}
use signet_platform.Prelude.Text.{Str, codes, truthy, ◌===◌}
use signet_platform.Types.Group.{NodeOperator, signet}
use signet_platform.Operators.{group_by_operator, operator_key, operator_label}
use signet_platform.Operators.Partition.{IsDistinct, nodes_of, total, group_by_operator-IsPartition}

abbrev node : Str → Str → Option Str → NodeOperator
node address name operator = record {
  address = address;
  name = name;
  slug = [];
  description = [];
  website_url = none;
  logo_url = none;
  api_url = none;
  region = codes "us-west-1";
  jurisdiction = codes "US";
  category = signet;
  verified = true;
  is_open = some true;
  registered_at = none;
  operator_address = operator;
  group_count = 1;
  synced_at = none;
  health = none;
}

abbrev west : NodeOperator
west = node (codes "0x01") (codes "Labs - west") (some (codes "0xAB"))

abbrev east : NodeOperator
east = node (codes "0x02") (codes "Labs - east") (some (codes "0xab"))

abbrev own : NodeOperator
own = node (codes "0x03") (codes "Solo") none

abbrev fleet : List NodeOperator
fleet = west ∷ own ∷ east ∷ []

group_by_operator-IsPartition_example :
    IsDistinct (group_by_operator fleet)
    × ((k : Str) → nodes_of k (group_by_operator fleet) ≡ filter (λ n. operator_key n === k) fleet)
    × (total (group_by_operator fleet) ≡ length fleet)
group_by_operator-IsPartition_example = group_by_operator-IsPartition fleet

grouped :
    map (λ (n : NodeOperator). n.address) (nodes_of (codes "0xab") (group_by_operator fleet))
    ≡ codes "0x01" ∷ codes "0x02" ∷ []
unfolding nodes_of group_by_operator signet_platform.Prelude.Text.lower
grouped = refl

labelled : operator_label (west ∷ east ∷ []) ≡ codes "Labs"
unfolding operator_label
labelled = refl
