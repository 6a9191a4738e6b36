-- ===== src/Prelude/Hex.antt =====
-- Numbers and bytes as hexadecimal text: `n.toString(16)`, `BigInt("0x…")`, `parseInt(s, 16)` and
-- the pair of byte conversions that web/lib/session-key.ts and web/lib/signet.ts each declare.
pub mod Laws
use Prim.Native.Nat.{ℕ, zero, suc, ◌+◌, ◌-◌, ◌*◌, ◌/◌, ◌%◌}
use mathlib.Core.Bool.{Bool, true, false, ◌&&◌, ◌||◌}
use mathlib.Core.List.{List, [], ◌∷◌, ◌++◌}
use mathlib.Core.Option.{Option, none, some}
use signet_platform.Prelude.Tests.{leb, ltb, ◌==◌, if◌then◌else◌}
use signet_platform.Prelude.Text.{Str, codes, starts_with, slice_from, pad_start}

-- One lower-case digit, for `d < 16`.
unfoldable pub digit : ℕ → ℕ
digit d = if ltb d 10 then b'0' + d else 87 + d

unfoldable pub digit_value : ℕ → Option ℕ
digit_value c =
    if leb b'0' c && leb c b'9'
    then some (c - b'0')
    else if leb b'a' c && leb c b'f'
    then some (c - 87)
    else if leb b'A' c && leb c b'F'
    then some (c - 55)
    else none

-- The digits of `n` in front of `acc`; every round divides `n`, so `n` rounds are enough.
pub digits_from : ℕ → ℕ → Str → Str
digits_from zero n acc = acc
digits_from (suc f) n acc =
    let more = digits_from f (n / 16) (digit (n % 16) ∷ acc) in if n == 0 then acc else more

-- `n.toString(16)`
unfoldable pub to_string16 : ℕ → Str
unfolding digits_from digit
to_string16 n = if n == 0 then codes "0" else digits_from n n []

-- The value of a text of hexadecimal digits after a prefix worth `acc`.
pub value_from : ℕ → Str → Option ℕ
value_from acc [] = some acc
value_from acc (c ∷ s) = elim (digit_value c) [ none ↦ none | some d ↦ value_from (acc * 16 + d) s ]

-- `BigInt("0x" + s)`, which throws on no digits and on other characters.
unfoldable pub big_int : Str → Option ℕ
unfolding value_from digit_value
big_int [] = none
big_int (c ∷ s) = value_from 0 (c ∷ s)

-- White space as `parseInt` skips it.
is_space : ℕ → Bool
is_space c =
    leb 9 c && leb c 13
    || c == 32
    || c == 160
    || c == 5760
    || leb 8192 c && leb c 8202
    || c == 8232
    || c == 8233
    || c == 8239
    || c == 8287
    || c == 12288
    || c == 65279

trim_start : Str → Str
trim_start [] = []
trim_start (c ∷ s) = let rest = trim_start s in if is_space c then rest else c ∷ s

-- The value of the longest prefix of digits, `none` if there are no digits.
prefix_value : Option ℕ → Str → Option ℕ
prefix_value acc [] = acc
prefix_value acc (c ∷ s) = elim (digit_value c) [
  | none ↦ acc
  | some d ↦ prefix_value (some (elim acc [ none ↦ d | some a ↦ a * 16 + d ])) s
]

strip_0x : Str → Str
strip_0x s = if starts_with s (codes "0x") || starts_with s (codes "0X") then slice_from s 2 else s

magnitude : Str → ℕ
magnitude t = elim (prefix_value none (strip_0x t)) [ none ↦ 0 | some n ↦ n ]

read_signed : Str → ℕ
read_signed [] = 0
read_signed (c ∷ t) =
    if c == b'-'
    then (256 - magnitude t % 256) % 256
    else if c == b'+'
    then magnitude t % 256
    else magnitude (c ∷ t) % 256

-- `parseInt(s, 16)` stored in a `Uint8Array`: NaN is 0, and other values are taken modulo 256.
unfoldable pub parse_byte : Str → ℕ
unfolding trim_start is_space read_signed magnitude strip_0x prefix_value digit_value starts_with
parse_byte s = read_signed (trim_start s)

-- `b.toString(16).padStart(2, "0")`
unfoldable pub byte_hex : ℕ → Str
unfolding to_string16
byte_hex b = pad_start (to_string16 b) 2 b'0'

-- `bytesToHex`, `toHex`
unfoldable pub bytes_to_hex : List ℕ → Str
unfolding byte_hex
bytes_to_hex [] = []
bytes_to_hex (b ∷ bs) = byte_hex b ++ bytes_to_hex bs

-- The loop over `clean.slice(i * 2, i * 2 + 2)`; a last odd character is left out.
unfoldable pub read_pairs : Str → List ℕ
unfolding parse_byte
read_pairs (a ∷ b ∷ rest) = parse_byte (a ∷ b ∷ []) ∷ read_pairs rest
read_pairs _ = []

-- `hexToBytes`, `fromHex`
unfoldable pub hex_to_bytes : Str → List ℕ
unfolding read_pairs starts_with
hex_to_bytes hex = read_pairs (if starts_with hex (codes "0x") then slice_from hex 2 else hex)
