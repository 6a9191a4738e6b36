-- ===== src/Tests/Policies.antt =====
-- Tests of the editor of policies.
use signet_platform.Prelude.{◌≡◌, refl, false, some, Option, List, [], ◌∷◌, map, All}
use signet_platform.Prelude.Text.{Str, codes}
use signet_platform.Prelude.Space.{trim}
use signet_platform.Effects.Json.{Json, obj, end}
use signet_platform.Policies.{
  Policy, key_scope, rate_limit, node, Input, new_policy, types_name, clicks_save, save_accepted,
  edit, picks, mounted, save_call, steps,
}
use signet_platform.Policies.Sent.{IsSent, swapped, steps-IsTyped}
use signet_platform.Tests.GroupPage.{urls}

abbrev other : Policy
other = record {
  id = codes "p2";
  name = codes "B";
  kind = key_scope;
  enforced_by = node;
  config = end;
  enabled = false;
  created_at = codes "2026-01-01";
  updated_at = codes "2026-01-01";
}

abbrev renamed : Policy → Policy
renamed p = record p { name = codes "C" }

abbrev parses : Str → Option Json
parses s = some (obj end)

-- The policy A is made, and then the policy B is edited and saved.
abbrev history : List Input
history =
    new_policy
    ∷ types_name (codes "A")
    ∷ clicks_save
    ∷ save_accepted
    ∷ edit other
    ∷ picks rate_limit
    ∷ clicks_save
    ∷ []

steps-IsTyped_example :
    All (IsSent urls (codes "a1") parses) (steps urls (codes "a1") parses history mounted).saves
    × ((steps urls (codes "a1") parses (map (swapped renamed) history) mounted).saves
        ≡ (steps urls (codes "a1") parses history mounted).saves)
steps-IsTyped_example = steps-IsTyped urls (codes "a1") parses history renamed

-- What is saved under the title "Edit policy" of B replaces A.
overwritten :
    (steps urls (codes "a1") parses history mounted).saves
    ≡ save_call urls (codes "a1") parses (codes "A") key_scope (obj end)
      ∷ save_call urls (codes "a1") parses (codes "A") rate_limit (obj end)
      ∷ []
unfolding steps mounted trim
overwritten = refl
