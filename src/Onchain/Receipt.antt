-- ===== src/Onchain/Receipt.antt =====
-- web/lib/onchain.ts: `waitForReceipt`, the loop that polls until a transaction is mined. The clock
-- goes on by 3 seconds or more in each round, so 101 rounds of fuel last past the five minutes.
pub mod Laws
use signet_platform.Prelude.{
  ℕ, zero, suc, ◌+◌, ◌*◌, ◌-◌, Bool, true, false, ◌&&◌, ◌||◌, Option, none, some, List, [], ◌∷◌,
  leb, ltb, ◌==◌, if◌then◌else◌,
}
use signet_platform.Prelude.Text.{Str, codes, truthy, starts_with, slice_from}
use signet_platform.Prelude.Hex.{big_int}
use signet_platform.Effects.Failure.{
  Result, ok, err, external, not_confirmed, reverted, syntax_error,
}
use signet_platform.Effects.World.{
  World, Exec, ◌>>=◌, ◌>>◌, pure, raise, lift, await, sleep, receipt_asked,
}
use signet_platform.Effects.Wallet.{Wallet, Receipt}

-- `5 * 60_000` and the wait between two polls
abbrev pub patience_ms : ℕ
patience_ms = 300_000

abbrev pub poll_ms : ℕ
poll_ms = 3_000

decimal_value : ℕ → Str → Option ℕ
decimal_value acc [] = some acc
decimal_value acc (c ∷ s) =
    let rest = decimal_value (acc * 10 + (c - b'0')) s in
    if leb b'0' c && leb c b'9' then rest else none

-- `BigInt(s)` for a text of hexadecimal digits after `0x`, or of decimal digits; `none` is a throw.
unfoldable pub parse_big_int : Str → Option ℕ
unfolding starts_with big_int decimal_value
parse_big_int s =
    if starts_with s (codes "0x") || starts_with s (codes "0X")
    then big_int (slice_from s 2)
    else decimal_value 0 s

-- `receipt.status && BigInt(receipt.status) === 0n`
unfoldable pub check_receipt : Receipt → Result (Unit {0})
unfolding parse_big_int
check_receipt r = elim (truthy r.status) [
  | none ↦ ok tt
  | some s ↦ elim (parse_big_int s) [
    | none ↦ err syntax_error
    | some n ↦ if n == 0 then err reverted else ok tt
  ]
]

-- What a poll's answer does: `again` is the rest of the loop.
after :
    Result (Option Receipt)
    → World
    → Option (Result (Unit {0}) × World)
    → Option (Result (Unit {0}) × World)
after (err e) v again = some (err e, v)
after (ok (some r)) v again = some (check_receipt r, v)
after (ok none) v again = again

module _ (wallet : Wallet) (hash : Str) where
  unfoldable pub ask : Exec (Option Receipt)
  ask = do
    trace ← λ w. (ok w.trace, w)
    await (receipt_asked hash)
    lift (external (wallet.receipt trace hash))

  -- The loop; `none` is fuel that ran out.
  unfoldable pub polls : ℕ → ℕ → World → Option (Result (Unit {0}) × World)
  unfolding after check_receipt
  polls zero deadline w = none
  polls (suc fuel) deadline w =
      let (answer, v) = ask w in
      let again = polls fuel deadline (sleep poll_ms v).1 in
      if ltb w.now deadline then after answer v again else some (err (not_confirmed hash), w)

  -- The outcome of the loop; the first case is not reached.
  unfoldable pub settle : World → Option (Result (Unit {0}) × World) → Result (Unit {0}) × World
  settle w none = (err (not_confirmed hash), w)
  settle w (some out) = out

  unfoldable pub wait_for_mined : Exec (Unit {0})
  wait_for_mined w = settle w (polls 101 (w.now + patience_ms) w)

-- Without a wallet there is nothing to ask.
unfoldable pub wait_for_receipt : Option Wallet → Str → Exec (Unit {0})
wait_for_receipt none hash = pure tt
wait_for_receipt (some wallet) hash = wait_for_mined wallet hash
