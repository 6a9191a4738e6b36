-- ===== src/Signet/Siwe.antt =====
-- web/lib/signet.ts: the ERC-4361 message, and the wallet's part of Sign-In with Ethereum.
pub mod Signed
pub mod Message
use mathlib.Core.List.{append_assoc, append-nil}
use signet_platform.Prelude.{
  ℕ, ◌+◌, ◌≡◌, refl, ◌≢◌, Bool, true, false, Option, none, some, List, [], ◌∷◌, ◌++◌, arith, head?,
  if◌then◌else◌, ◌==◌,
}
use signet_platform.Prelude.Text.{Str, codes, truthy}
use signet_platform.Effects.Failure.{ok, external, or_throw, no_ethereum_wallet, no_wallet_account}
use signet_platform.Effects.Wallet.{Wallet}
use signet_platform.Prelude.Decimal.{to_decimal}
use signet_platform.Effects.World.{
  World, Exec, ◌>>=◌, ◌>>◌, pure, raise, lift, await, wallet_request, wallet_signed,
}

pub record SiweOptions : Type 0 where
  pub domain : Str
  pub address : Str
  pub statement : Str
  pub uri : Str
  pub chain_id : ℕ
  pub nonce : Str

abbrev pub siwe_lines : SiweOptions → Str → List Str
siwe_lines o issued_at =
    (o.domain ++ codes " wants you to sign in with your Ethereum account:")
    ∷ o.address
    ∷ []
    ∷ o.statement
    ∷ []
    ∷ (codes "URI: " ++ o.uri)
    ∷ codes "Version: 1"
    ∷ (codes "Chain ID: " ++ to_decimal o.chain_id)
    ∷ (codes "Nonce: " ++ o.nonce)
    ∷ (codes "Issued At: " ++ issued_at)
    ∷ []

-- `lines.join("\n")`
unfoldable pub join_lines : List Str → Str
join_lines [] = []
join_lines (l ∷ []) = l
join_lines (l ∷ m ∷ rest) = l ++ (10 ∷ join_lines (m ∷ rest))

-- `issued_at` is `new Date().toISOString()`.
unfoldable pub build_siwe_message : SiweOptions → Str → Str
unfolding join_lines
build_siwe_message o issued_at = join_lines (siwe_lines o issued_at)

-- The challenge of the API, with its optional members.
pub record Challenge : Type 0 where
  pub nonce : Str
  pub statement : Str
  pub domain : Option Str
  pub chain_id : Option ℕ
  pub uri : Option Str

-- `window.location`, and the text of the clock
pub record Page : Type 0 where
  pub host : Str
  pub origin : Str
  pub iso_time : ℕ → Str

pub record SignedMessage : Type 0 where
  pub address : Str
  pub message : Str
  pub signature : Str

abbrev or_else {ℓ} : {A : Type ℓ} → Option A → A → A
or_else o d = elim o [ none ↦ d | some a ↦ a ]

-- `accounts?.[0]`
abbrev pub first_account : Option (List Str) → Option Str
first_account o = elim o [ none ↦ none | some l ↦ head? l ]

abbrev pub siwe_options : Page → Challenge → Str → SiweOptions
siwe_options page c address = record {
  domain = or_else c.domain page.host;
  address = address;
  statement = c.statement;
  uri = or_else c.uri page.origin;
  chain_id = or_else c.chain_id 1;
  nonce = c.nonce;
}

sign_with : Wallet → Page → Challenge → Exec SignedMessage
sign_with wallet page c = do
  trace ← λ w. (ok w.trace, w)
  await (wallet_request (codes "eth_requestAccounts"))
  accounts ← lift (external (wallet.accounts trace))
  address ← lift (or_throw no_wallet_account (truthy (first_account accounts)))
  now ← λ w. (ok w.now, w)
  let message = build_siwe_message (siwe_options page c address) (page.iso_time now)
  await (wallet_signed message address)
  signature ← lift (external (wallet.sign message address))
  pure (record { address = address; message = message; signature = signature })

unfoldable pub siwe_sign_in : Option Wallet → Page → Challenge → Exec SignedMessage
unfolding sign_with
siwe_sign_in none page c = raise no_ethereum_wallet
siwe_sign_in (some wallet) page c = sign_with wallet page c
