-- ===== src/Prelude/Commas.antt =====
-- Texts that list values between commas, as two pages of the console read them.
use mathlib.Core.Bool.{not}
use mathlib.Core.List.{List, [], ◌∷◌, map}
use signet_platform.Prelude.Tests.{◌==◌, if◌then◌else◌}
use signet_platform.Prelude.Lists.{filter}
use signet_platform.Prelude.Text.{Str, is_empty}
use signet_platform.Prelude.Space.{trim}

-- `text.split(",")`
unfoldable pub split_commas : Str → List Str
split_commas [] = [] ∷ []
split_commas (c ∷ s) =
    let rest = split_commas s in
    if c == b',' then [] ∷ rest else elim rest [ [] ↦ (c ∷ []) ∷ [] | p ∷ ps ↦ (c ∷ p) ∷ ps ]

-- `text.split(",").map((c) => c.trim()).filter(Boolean)`
unfoldable pub comma_list : Str → List Str
unfolding split_commas
comma_list text = filter (λ (s : Str). not (is_empty s)) (map trim (split_commas text))
