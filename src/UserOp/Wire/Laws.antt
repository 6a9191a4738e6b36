-- ===== src/UserOp/Wire/Laws.antt =====
-- web/lib/userop.ts: the wire form of an operation says what the packed form said.
use mathlib.Core.List.{append-nil}
use signet_platform.Prelude.{
  ℕ, ◌-◌, ◌^◌, ◌≤◌, ◌<◌, ◌≡◌, refl, ap, ◌∙◌, Option, some, [], ◌++◌, arith, length, replicate, take,
  Bool-cases, inl, inr, ltb, le→leb, take-append, drop-append, take_all, take-append-drop,
  length-append,
}
use signet_platform.Prelude.Text.{Str, slice, slice_from, pad_start}
use signet_platform.Prelude.Hex.{to_string16}
use signet_platform.Prelude.Hex.Laws.{big_int-pad_start, length-pad_start, length-to_string16}
use signet_platform.Effects.Failure.{ok}
use signet_platform.UserOp.Wire.{
  PackedUserOp, SignedUserOp, hex, hex_number, pack_pair, padded, address_part, data_part,
  half_number, serialize, assemble,
}

pad_start_full : (s : Str) (w : ℕ) → w ≤ length s → pad_start s w b'0' ≡ s
pad_start_full s w h = ap (λ (k : ℕ). replicate k b'0' ++ s) (no_pad (w - length s) (omega arith))
  where
    no_pad : (k : ℕ) → k ≡ 0 → k ≡ 0
    no_pad k e = e

half_number-pad_start :
    (n : ℕ) → half_number (pad_start (to_string16 n) 32 b'0') ≡ some (hex_number n)
half_number-pad_start n = ground (arith, big_int-pad_start n 32)

module _ (hi lo : ℕ) (hi_fits : hi < 16 ^ 32) (lo_fits : lo < 16 ^ 32) where
  abbrev digits_hi : Str
  digits_hi = pad_start (to_string16 hi) 32 b'0'

  abbrev digits_lo : Str
  digits_lo = pad_start (to_string16 lo) 32 b'0'

  length_hi : length digits_hi ≡ 32
  length_hi = length-pad_start (to_string16 hi) 32 (omega (arith, length-to_string16 32 hi hi_fits))

  length_lo : length digits_lo ≡ 32
  length_lo = length-pad_start (to_string16 lo) 32 (omega (arith, length-to_string16 32 lo lo_fits))

  padded-pack_pair : padded (pack_pair hi lo) ≡ digits_hi ++ digits_lo
  unfolding pack_pair
  padded-pack_pair =
      pad_start_full (digits_hi ++ digits_lo) 64
        (omega (arith, length-append digits_hi digits_lo, length_hi, length_lo))

  -- Both numbers are read back from a packed pair.
  high_half : half_number (slice (padded (pack_pair hi lo)) 0 32) ≡ some (hex_number hi)
  high_half =
      rw (padded-pack_pair, take-append 32 digits_hi digits_lo length_hi) (half_number-pad_start hi)

  low_half : half_number (slice (padded (pack_pair hi lo)) 32 64) ≡ some (hex_number lo)
  low_half =
      rw
        (
          padded-pack_pair,
          drop-append 32 digits_hi digits_lo length_hi,
          take_all 32 digits_lo (omega (arith, length_lo)),
        )
        (half_number-pad_start lo)

-- The wire form with these limits and fees.
wire_form : PackedUserOp → ℕ → ℕ → ℕ → ℕ → SignedUserOp
unfolding address_part data_part
wire_form op verification call priority fee = record {
  sender = op.sender;
  nonce = hex_number op.nonce;
  factory = address_part (slice_from op.init_code 2);
  factory_data = data_part (slice_from op.init_code 2);
  call_data = op.call_data;
  call_gas_limit = hex_number call;
  verification_gas_limit = hex_number verification;
  pre_verification_gas = hex_number op.pre_verification_gas;
  max_fee_per_gas = hex_number fee;
  max_priority_fee_per_gas = hex_number priority;
  paymaster = address_part (slice_from op.paymaster_and_data 2);
  paymaster_data = data_part (slice_from op.paymaster_and_data 2);
  signature = op.signature;
}

-- An operation whose gas limits and fees are packed pairs of numbers below 2 ^ 128 is serialised,
-- and its four limits and fees are those numbers, each in its own field.
pub serialize-pack_pair :
    (op : PackedUserOp) (verification call priority fee : ℕ)
    → verification < 16 ^ 32
    → call < 16 ^ 32
    → priority < 16 ^ 32
    → fee < 16 ^ 32
    → op.account_gas_limits ≡ pack_pair verification call
    → op.gas_fees ≡ pack_pair priority fee
    → (u : SignedUserOp) × (serialize op ≡ ok u)
      × (u.verification_gas_limit ≡ hex_number verification)
      × (u.call_gas_limit ≡ hex_number call)
      × (u.max_priority_fee_per_gas ≡ hex_number priority)
      × (u.max_fee_per_gas ≡ hex_number fee)
unfolding serialize wire_form
serialize-pack_pair op v c p f hv hc hp hf limits fees = (
  wire_form op v c p f,
  rw (
    limits,
    fees,
    low_half v c hv hc,
    high_half v c hv hc,
    low_half p f hp hf,
    high_half p f hp hf,
  ),
  refl,
  refl,
  refl,
  refl,
)

-- The bundler puts the address and the data of a blob together again.
abbrev pub rejoin : Str → Str → Str
rejoin address more = address ++ slice_from more 2

rejoin_parts : (s : Str) → 40 ≤ length s → rejoin (address_part s) (data_part s) ≡ hex s
unfolding address_part data_part
rejoin_parts s h = elim (Bool-cases (ltb 40 (length s))) [
  | inl longer ↦ rw (le→leb 40 (length s) h, longer) (ap hex (take-append-drop 40 s))
  | inr exact ↦
      rw (le→leb 40 (length s) h, exact)
        (ap hex (append-nil (take 40 s) ∙ take_all 40 s (ground arith)))
]

no_parts : (s : Str) → length s < 40 → (address_part s ≡ []) × (data_part s ≡ [])
unfolding address_part data_part
no_parts s h = ground arith

serialize_parts :
    (op : PackedUserOp) (u : SignedUserOp)
    → serialize op ≡ ok u
    → (u.factory ≡ address_part (slice_from op.init_code 2))
      × (u.factory_data ≡ data_part (slice_from op.init_code 2))
      × (u.paymaster ≡ address_part (slice_from op.paymaster_and_data 2))
      × (u.paymaster_data ≡ data_part (slice_from op.paymaster_and_data 2))
unfolding serialize
serialize_parts op u e = assembled _ _ _ _ e
  where
    assembled :
        (a b c d : Option Str)
        → assemble op a b c d ≡ ok u
        → (u.factory ≡ address_part (slice_from op.init_code 2))
          × (u.factory_data ≡ data_part (slice_from op.init_code 2))
          × (u.paymaster ≡ address_part (slice_from op.paymaster_and_data 2))
          × (u.paymaster_data ≡ data_part (slice_from op.paymaster_and_data 2))
    assembled (some a) (some b) (some c) (some d) x = ground arith
    assembled _ _ _ _ x = cc x

-- Putting the factory and the paymaster back together with their data gives the packed blobs, if
-- each begins with an address; a blob shorter than an address is left out.
pub serialize-rejoin :
    (op : PackedUserOp) (u : SignedUserOp)
    → serialize op ≡ ok u
    → (40 ≤ length (slice_from op.init_code 2)
        → rejoin u.factory u.factory_data ≡ hex (slice_from op.init_code 2))
      × (40 ≤ length (slice_from op.paymaster_and_data 2)
          → rejoin u.paymaster u.paymaster_data ≡ hex (slice_from op.paymaster_and_data 2))
      × (length (slice_from op.init_code 2) < 40 → rejoin u.factory u.factory_data ≡ [])
      × (length (slice_from op.paymaster_and_data 2) < 40
          → rejoin u.paymaster u.paymaster_data ≡ [])
serialize-rejoin op u e =
    let (f, fd, p, pd) = serialize_parts op u e in
    (
      λ h. rw (f, fd) (rejoin_parts _ h),
      λ h. rw (p, pd) (rejoin_parts _ h),
      λ h. rw (f, fd) (let (x, y) = no_parts _ h in rw (x, y)),
      λ h. rw (p, pd) (let (x, y) = no_parts _ h in rw (x, y)),
    )
