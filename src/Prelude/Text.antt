-- ===== src/Prelude/Text.antt =====
-- Texts of the source as lists of UTF-16 code units, with the string methods that it calls.
use Prim.Native.Char.{code}
use Prim.Native.Nat.{ℕ, ◌+◌, ◌-◌}
use Prim.Native.String.{String}
use mathlib.Core.Path.{◌≡◌, refl}
use mathlib.Core.Logic.{◌↔◌}
use mathlib.Core.Bool.{Bool, true, false, ◌&&◌}
use mathlib.Core.List.{List, [], ◌∷◌, ◌++◌, map}
use mathlib.Core.Option.{Option, none, some}
use native.Mathlib.Omega.{arith}
use signet_platform.Prelude.Tests.{leb, ◌==◌, if◌then◌else◌}
use signet_platform.Prelude.Lists.{length, take, drop, replicate}

abbrev pub Str : Type 0
Str = List ℕ

-- A literal of the source, all of whose characters stand in the basic plane.
abbrev pub codes : String → Str
codes String.[] = []
codes (String.◌∷◌ c s) = code c ∷ codes s

-- `a === b` on strings
infix 50 ◌===◌
unfoldable pub ◌===◌ : Str → Str → Bool
[] === [] = true
[] === (d ∷ t) = false
(c ∷ s) === [] = false
(c ∷ s) === (d ∷ t) = c == d && s === t

pub eq_sound : (s t : Str) → s === t ≡ true → s ≡ t
unfolding ◌===◌
eq_sound [] [] h = refl
eq_sound [] (d ∷ t) h = ground arith
eq_sound (c ∷ s) [] h = ground arith
eq_sound (c ∷ s) (d ∷ t) h = ground (arith, eq_sound s t)

pub eq_refl : (s : Str) → s === s ≡ true
unfolding ◌===◌
eq_refl [] = refl
eq_refl (c ∷ s) = ground (arith, eq_refl s)

pub eq_iff : (s t : Str) → (s === t ≡ true) ↔ (s ≡ t)
eq_iff s t = (eq_sound s t, λ e. rw e (eq_refl t))

-- `s.startsWith(p)`
unfoldable pub starts_with : Str → Str → Bool
starts_with s [] = true
starts_with [] (d ∷ p) = false
starts_with (c ∷ s) (d ∷ p) = c == d && starts_with s p

-- `s.toLowerCase()` on ASCII, which the addresses are
unfoldable pub lower : ℕ → ℕ
lower c = if leb b'A' c && leb c b'Z' then c + 32 else c

abbrev pub to_lower : Str → Str
to_lower = map lower

pub to_lower_idem : (s : Str) → to_lower (to_lower s) ≡ to_lower s
unfolding lower
to_lower_idem [] = refl
to_lower_idem (c ∷ s) = ground (arith, to_lower_idem s)

-- `s.slice(a)` and `s.slice(a, b)` for `0 ≤ a ≤ b`
abbrev pub slice_from : Str → ℕ → Str
slice_from s a = drop a s

abbrev pub slice : Str → ℕ → ℕ → Str
slice s a b = take (b - a) (drop a s)

-- `s.padStart(n, c)`
abbrev pub pad_start : Str → ℕ → ℕ → Str
pad_start s n c = replicate (n - length s) c ++ s

-- A string as a condition: the empty string, `null` and `undefined` are falsy.
abbrev pub truthy : Option Str → Option Str
truthy none = none
truthy (some []) = none
truthy (some (c ∷ s)) = some (c ∷ s)

abbrev pub is_empty : Str → Bool
is_empty [] = true
is_empty (c ∷ s) = false

-- `v.startsWith("0x") ? v : "0x" + v`
pub with_prefix : Str → Str
with_prefix v = if starts_with v (codes "0x") then v else codes "0x" ++ v

pub with_prefix_idem : (v : Str) → with_prefix (with_prefix v) ≡ with_prefix v
unfolding with_prefix starts_with
with_prefix_idem v = ground arith
