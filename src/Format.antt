-- ===== src/Format.antt =====
-- web/lib/format.ts: what the screens show of addresses, times, curves, chains and scopes. The
-- formats of the browser's locale are parameters.
pub mod Shown
pub mod Relative
use signet_platform.Prelude.{
  ℕ, ◌+◌, ◌-◌, ◌*◌, ◌/◌, ◌%◌, Option, none, some, List, ◌++◌, ◌∷◌, [], length, drop, ltb, leb, ◌==◌,
  if◌then◌else◌,
}
use signet_platform.Prelude.Text.{Str, codes, truthy, slice, ◌===◌}
use signet_platform.Prelude.Decimal.{to_decimal}

-- The dash that stands for a missing value, and the ellipsis
abbrev pub dash : Str
dash = 8212 ∷ []

abbrev pub ellipsis : ℕ
ellipsis = 8230

-- `s.slice(-n)`, which for 0 is the whole text
abbrev pub slice_last : Str → ℕ → Str
slice_last s n = if n == 0 then s else drop (length s - n) s

abbrev pub shortened : Str → ℕ → ℕ → Str
shortened a lead tail =
    if leb (length a) (lead + tail + 2) then a else slice a 0 lead ++ (ellipsis ∷ slice_last a tail)

unfoldable pub short_address : Option Str → ℕ → ℕ → Str
short_address addr lead tail = elim (truthy addr) [ none ↦ dash | some a ↦ shortened a lead tail ]

-- `new Date(iso).getTime()`, if it is a number, in milliseconds, for times from 1970 on; and the
-- locale's texts for a time
pub record Dates : Type 0 where
  pub time_of : Str → Option ℕ
  pub date_text : ℕ → Str
  pub date_time_text : ℕ → Str

-- The time that a member holds, if it holds one that can be read.
abbrev pub readable_time : Dates → Option Str → Option ℕ
readable_time dates iso = elim (truthy iso) [ none ↦ none | some s ↦ dates.time_of s ]

unfoldable pub format_date : Dates → Option Str → Str
format_date dates iso = elim (readable_time dates iso) [ none ↦ dash | some t ↦ dates.date_text t ]

unfoldable pub format_date_time : Dates → Option Str → Str
format_date_time dates iso = elim (readable_time dates iso) [
  | none ↦ dash
  | some t ↦ dates.date_time_text t
]

-- Days, hours, minutes and seconds
pub record Parts : Type 0 where
  pub days : ℕ
  pub hours : ℕ
  pub minutes : ℕ
  pub seconds : ℕ

unfoldable pub parts_of : ℕ → Parts
parts_of s = record {
  days = s / 86_400;
  hours = (s % 86_400) / 3600;
  minutes = (s % 3600) / 60;
  seconds = s % 60;
}

unfoldable pub parts_text : Parts → Str
parts_text p =
    if ltb 0 p.days
    then to_decimal p.days ++ (codes "d " ++ (to_decimal p.hours ++ codes "h"))
    else (if ltb 0 p.hours
        then to_decimal p.hours ++ (codes "h " ++ (to_decimal p.minutes ++ codes "m"))
        else to_decimal p.minutes ++ (codes "m " ++ (to_decimal p.seconds ++ codes "s")))

abbrev pub remaining_text : ℕ → Option ℕ → Option Str
remaining_text now none = none
remaining_text now (some t) =
    if leb t now then none else some (parts_text (parts_of ((t - now) / 1000)))

unfoldable pub countdown : Dates → ℕ → Option Str → Option Str
unfolding parts_of parts_text
countdown dates now iso = remaining_text now (readable_time dates iso)

-- The value of a label's table, or the key itself.
labelled : List (Str × Str) → Str → Str
labelled [] k = k
labelled ((j, v) ∷ table) k = if j === k then v else labelled table k

unfoldable pub curve_label : Str → Str
unfolding ◌===◌ labelled
curve_label curve =
    labelled
      ((codes "frost_secp256k1", codes "FROST · secp256k1")
        ∷ (codes "frost_ed25519", codes "FROST · Ed25519")
        ∷ (codes "ecdsa_secp256k1", codes "ECDSA · secp256k1")
        ∷ [])
      curve

unfoldable pub scope_label : Str → Str
unfolding ◌===◌ labelled
scope_label kind =
    labelled
      ((codes "unscoped", codes "Unscoped")
        ∷ (codes "evm_userop", codes "EVM UserOperation")
        ∷ (codes "solana_tx", codes "Solana transaction")
        ∷ (codes "eip712", codes "EIP-712 typed data")
        ∷ [])
      kind

abbrev pub chain_names : List (ℕ × Str)
chain_names =
    (1, codes "Ethereum")
    ∷ (10, codes "Optimism")
    ∷ (137, codes "Polygon")
    ∷ (8453, codes "Base")
    ∷ (42_161, codes "Arbitrum One")
    ∷ (11_155_111, codes "Sepolia")
    ∷ (84_532, codes "Base Sepolia")
    ∷ (31_337, codes "Anvil (local)")
    ∷ []

named_chain : List (ℕ × Str) → ℕ → Str
named_chain [] id = codes "Chain " ++ to_decimal id
named_chain ((n, name) ∷ table) id = if n == id then name else named_chain table id

unfoldable pub chain_name : Option ℕ → Str
unfolding named_chain
chain_name none = dash
chain_name (some id) = named_chain chain_names id
