-- ===== src/UserOp/Wire.antt =====
-- web/lib/userop.ts: the wire form of an operation, `serialize` and the packing of gas limits.
pub mod Laws
use signet_platform.Prelude.{
  ℕ, ◌-◌, ◌≤◌, Option, none, some, List, [], ◌∷◌, ◌++◌, leb, ltb, length, if◌then◌else◌,
}
use signet_platform.Prelude.Text.{Str, codes, slice, slice_from, pad_start}
use signet_platform.Prelude.Hex.{to_string16, big_int}
use signet_platform.Effects.Failure.{Result, ok, err, bad_number}

-- The operation as the SDK packs it; a bigint is a natural number.
pub record PackedUserOp : Type 0 where
  pub sender : Str
  pub nonce : ℕ
  pub init_code : Str
  pub call_data : Str
  pub account_gas_limits : Str
  pub pre_verification_gas : ℕ
  pub gas_fees : Str
  pub paymaster_and_data : Str
  pub signature : Str

pub record SignedUserOp : Type 0 where
  pub sender : Str
  pub nonce : Str
  pub factory : Str
  pub factory_data : Str
  pub call_data : Str
  pub call_gas_limit : Str
  pub verification_gas_limit : Str
  pub pre_verification_gas : Str
  pub max_fee_per_gas : Str
  pub max_priority_fee_per_gas : Str
  pub paymaster : Str
  pub paymaster_data : Str
  pub signature : Str

-- `0x${s}`
abbrev pub hex : Str → Str
hex s = codes "0x" ++ s

-- `0x${n.toString(16)}`
abbrev pub hex_number : ℕ → Str
hex_number n = hex (to_string16 n)

-- Two numbers side by side in 32 hexadecimal digits each, as the gas estimate is packed.
unfoldable pub pack_pair : ℕ → ℕ → Str
pack_pair hi lo = hex (pad_start (to_string16 hi) 32 b'0' ++ pad_start (to_string16 lo) 32 b'0')

-- `x.slice(2).padStart(64, "0")`
abbrev pub padded : Str → Str
padded x = pad_start (slice_from x 2) 64 b'0'

-- The address at the head of a blob, and what follows it.
unfoldable pub address_part : Str → Str
address_part s = if leb 40 (length s) then hex (slice s 0 40) else []

unfoldable pub data_part : Str → Str
data_part s = if ltb 40 (length s) then hex (slice_from s 40) else []

-- `0x${BigInt(`0x${half}`).toString(16)}`, where `BigInt` throws on what is no number.
abbrev pub half_number : Str → Option Str
half_number s = elim (big_int s) [ none ↦ none | some n ↦ some (hex_number n) ]

assemble : PackedUserOp → Option Str → Option Str → Option Str → Option Str → Result SignedUserOp
unfolding address_part data_part
assemble op (some call) (some verification) (some fee) (some priority) = ok (record {
  sender = op.sender;
  nonce = hex_number op.nonce;
  factory = address_part (slice_from op.init_code 2);
  factory_data = data_part (slice_from op.init_code 2);
  call_data = op.call_data;
  call_gas_limit = call;
  verification_gas_limit = verification;
  pre_verification_gas = hex_number op.pre_verification_gas;
  max_fee_per_gas = fee;
  max_priority_fee_per_gas = priority;
  paymaster = address_part (slice_from op.paymaster_and_data 2);
  paymaster_data = data_part (slice_from op.paymaster_and_data 2);
  signature = op.signature;
})
assemble op _ _ _ _ = err bad_number

unfoldable pub serialize : PackedUserOp → Result SignedUserOp
unfolding assemble
serialize op =
    assemble op (half_number (slice (padded op.account_gas_limits) 32 64))
      (half_number (slice (padded op.account_gas_limits) 0 32))
      (half_number (slice (padded op.gas_fees) 32 64))
      (half_number (slice (padded op.gas_fees) 0 32))
