-- ===== src/Prelude/Hex/Laws.antt =====
-- Reading back what the hexadecimal printers write.
use Prim.Native.Nat.{ℕ, zero, suc, ◌+◌, ◌-◌, ◌*◌, ◌/◌, ◌%◌, ◌^◌, ◌≤◌, ◌<◌, max}
use mathlib.Core.Path.{◌≡◌, refl, ap, ◌∙◌}
use mathlib.Core.Logic.{inl, inr}
use mathlib.Core.Bool.{Bool, true, false, ◌&&◌}
use mathlib.Core.List.{List, [], ◌∷◌, ◌++◌}
use mathlib.Core.Option.{some}
use native.Mathlib.Omega.{arith}
use native.Mathlib.Nat.{pow-suc}
use signet_platform.Prelude.Tests.{◌==◌, Bool-cases}
use signet_platform.Prelude.Lists.{length, replicate, All, length-append, length-replicate}
use signet_platform.Prelude.Text.{Str, codes, starts_with, pad_start, ◌===◌, eq_sound}
use signet_platform.Prelude.Hex.{
  digit, digit_value, digits_from, to_string16, value_from, big_int, parse_byte, byte_hex,
  bytes_to_hex, read_pairs, hex_to_bytes,
}

digit_value-digit : (d : ℕ) → d < 16 → digit_value (digit d) ≡ some d
unfolding digit_value digit
digit_value-digit d h = ground arith

value_from-digit :
    (acc d : ℕ) (s : Str) → d < 16 → value_from acc (digit d ∷ s) ≡ value_from (acc * 16 + d) s
unfolding value_from
value_from-digit acc d s h = rw (digit_value-digit d h, value_from)

digits_from_value :
    (f n : ℕ) (acc : Str) → n ≤ f → value_from 0 (digits_from f n acc) ≡ value_from n acc
unfolding digits_from
digits_from_value zero n acc h = ap (λ k. value_from k acc) (omega arith)
digits_from_value (suc f) n acc h = elim (Bool-cases (n == 0)) [
  | inl e ↦ rw e (ap (λ k. value_from k acc) (ground arith))
  | inr e ↦ rw e (
      digits_from_value f (n / 16) (digit (n % 16) ∷ acc) (ground arith)
      ∙ value_from-digit (n / 16) (n % 16) acc (omega arith)
      ∙ ap (λ k. value_from k acc) (omega arith))
]

value_from-zeros : (k : ℕ) (s : Str) → value_from 0 (replicate k b'0' ++ s) ≡ value_from 0 s
unfolding value_from digit_value
value_from-zeros zero s = refl
value_from-zeros (suc k) s = value_from-zeros k s

value_from-zero : value_from 0 (codes "0") ≡ some 0
unfolding value_from digit_value
value_from-zero = refl

value_from-nil : (k : ℕ) → value_from k [] ≡ some k
unfolding value_from
value_from-nil k = refl

pub value_from-to_string16 : (n : ℕ) → value_from 0 (to_string16 n) ≡ some n
unfolding to_string16
value_from-to_string16 n = elim (Bool-cases (n == 0)) [
  | inl e ↦ rw e (value_from-zero ∙ ap some (ground arith))
  | inr e ↦ rw e (digits_from_value n n [] (omega arith) ∙ value_from-nil n)
]

length-digits_from :
    (k f n : ℕ) (acc : Str) → n < 16 ^ k → length (digits_from f n acc) ≤ k + length acc
unfolding digits_from
length-digits_from k zero n acc h = omega arith
length-digits_from zero (suc f) n acc h = ground (arith)
length-digits_from (suc k) (suc f) n acc h = elim (Bool-cases (n == 0)) [
  | inl e ↦ rw e (omega arith)
  | inr e ↦ rw e (
      omega (
        arith,
        length-digits_from k f (n / 16) (digit (n % 16) ∷ acc) (omega (arith, pow-suc 16 k)),
      ))
]

le-length-digits_from : (f n : ℕ) (acc : Str) → length acc ≤ length (digits_from f n acc)
unfolding digits_from
le-length-digits_from zero n acc = omega arith
le-length-digits_from (suc f) n acc =
    ground (arith, le-length-digits_from f (n / 16) (digit (n % 16) ∷ acc))

digits_from_pos : (f n : ℕ) → 0 < n → n ≤ f → 0 < length (digits_from f n [])
unfolding digits_from
digits_from_pos zero n h le = absurd (omega arith)
digits_from_pos (suc f) n h le =
    ground (arith, le-length-digits_from f (n / 16) (digit (n % 16) ∷ []))

pub length-to_string16 : (k n : ℕ) → n < 16 ^ k → length (to_string16 n) ≤ max 1 k
unfolding to_string16
length-to_string16 k n h = ground (arith, length-digits_from k n n [])

pub to_string16_pos : (n : ℕ) → 0 < length (to_string16 n)
unfolding to_string16
to_string16_pos n = ground (arith, digits_from_pos n n)

pub big_int_of_pos : (s : Str) → 0 < length s → big_int s ≡ value_from 0 s
unfolding big_int
big_int_of_pos [] h = absurd (omega arith)
big_int_of_pos (c ∷ s) h = refl

-- `BigInt("0x" + n.toString(16).padStart(w, "0"))` is `n`, whatever the width.
pub big_int-pad_start : (n w : ℕ) → big_int (pad_start (to_string16 n) w b'0') ≡ some n
big_int-pad_start n w =
    let s = to_string16 n in
    big_int_of_pos (pad_start s w b'0')
      (omega (arith, to_string16_pos n, length-append (replicate (w - length s) b'0') s))
    ∙ value_from-zeros (w - length s) s
    ∙ value_from-to_string16 n

pub length-pad_start : (s : Str) (w : ℕ) → length s ≤ w → length (pad_start s w b'0') ≡ w
length-pad_start s w h = omega (
  arith,
  length-append (replicate (w - length s) b'0') s,
  length-replicate {A = ℕ} (w - length s) b'0',
)

under : (ℕ → Bool) → ℕ → Bool
under test zero = true
under test (suc bound) = let smaller = under test bound in smaller && test bound

test_under : (test : ℕ → Bool) (bound k : ℕ) → k < bound → under test bound ≡ true → test k ≡ true
unfolding under
test_under test zero k small passed = absurd (omega arith)
test_under test (suc bound) k small passed = ground (arith, test_under test bound k)

byte_table : under (λ b. byte_hex b === (digit (b / 16) ∷ digit (b % 16) ∷ [])) 256 ≡ true
unfolding under byte_hex digit ◌===◌
byte_table = refl

byte_hex_digits : (b : ℕ) → b < 256 → byte_hex b ≡ digit (b / 16) ∷ digit (b % 16) ∷ []
byte_hex_digits b h = eq_sound _ _ (test_under _ 256 b h byte_table)

parse_table : under (λ b. parse_byte (digit (b / 16) ∷ digit (b % 16) ∷ []) == b) 256 ≡ true
unfolding under parse_byte digit
parse_table = refl

parse_byte_digits : (b : ℕ) → b < 256 → parse_byte (digit (b / 16) ∷ digit (b % 16) ∷ []) ≡ b
parse_byte_digits b h =
    let t =
      test_under (λ b. parse_byte (digit (b / 16) ∷ digit (b % 16) ∷ []) == b) 256 b h
        parse_table in
    ground arith

abbrev pub IsByte : ℕ → Type 0
IsByte b = b < 256

read_pairs-bytes_to_hex : (bs : List ℕ) → All IsByte bs → read_pairs (bytes_to_hex bs) ≡ bs
unfolding read_pairs bytes_to_hex
read_pairs-bytes_to_hex [] h = refl
read_pairs-bytes_to_hex (b ∷ bs) (h, hs) =
    rw (byte_hex_digits b h, parse_byte_digits b h, read_pairs-bytes_to_hex bs hs)

unprefixed : (bs : List ℕ) → All IsByte bs → starts_with (bytes_to_hex bs) (codes "0x") ≡ false
unfolding bytes_to_hex starts_with digit
unprefixed [] h = refl
unprefixed (b ∷ bs) (h, hs) = rw (byte_hex_digits b h) (ground arith)

-- Bytes printed as hex are read back as the same bytes.
pub hex_to_bytes-bytes_to_hex : (bs : List ℕ) → All IsByte bs → hex_to_bytes (bytes_to_hex bs) ≡ bs
unfolding hex_to_bytes
hex_to_bytes-bytes_to_hex bs h = rw (unprefixed bs h) (read_pairs-bytes_to_hex bs h)
