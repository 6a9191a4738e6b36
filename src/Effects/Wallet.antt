-- ===== src/Effects/Wallet.antt =====
-- The browser wallet, an EIP-1193 provider: what it answers to each method that the console calls.
use signet_platform.Prelude.{Option, List}
use signet_platform.Prelude.Text.{Str}
use signet_platform.Effects.Failure.{Answer}
use signet_platform.Effects.World.{Event}

-- A receipt shows its `status`, if it has one.
pub record Receipt : Type 0 where
  pub status : Option Str

-- The answers may depend on the calls before; `threw` is a request that the wallet rejects.
pub record Wallet : Type 0 where
  pub accounts : List Event → Answer (Option (List Str))
  pub sign : Str → Str → Answer Str
  pub send : Str → Str → Str → Answer Str
  pub receipt : List Event → Str → Answer (Option Receipt)
