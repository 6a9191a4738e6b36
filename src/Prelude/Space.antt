-- ===== src/Prelude/Space.antt =====
-- White space in texts: what `\s` matches and what `trim` takes away.
use Prim.Native.Nat.{ℕ}
use mathlib.Core.Bool.{Bool, ◌&&◌, ◌||◌}
use mathlib.Core.List.{[], ◌∷◌}
use signet_platform.Prelude.Tests.{leb, ◌==◌, if◌then◌else◌}
use signet_platform.Prelude.Text.{Str, is_empty}

unfoldable pub is_space : ℕ → Bool
is_space c =
    (leb 9 c && leb c 13)
    || c == 32
    || c == 160
    || c == 5760
    || (leb 8192 c && leb c 8202)
    || c == 8232
    || c == 8233
    || c == 8239
    || c == 8287
    || c == 12288
    || c == 65279

unfoldable pub trim_start : Str → Str
unfolding is_space
trim_start [] = []
trim_start (c ∷ s) = if is_space c then trim_start s else c ∷ s

unfoldable pub trim_end : Str → Str
unfolding is_space
trim_end [] = []
trim_end (c ∷ s) = let rest = trim_end s in if is_empty rest && is_space c then [] else c ∷ rest

-- `s.trim()`
unfoldable pub trim : Str → Str
unfolding trim_start trim_end
trim s = trim_end (trim_start s)
