-- ===== src/Signet/Siwe/Signed.antt =====
-- web/lib/signet.ts: what a wallet has signed when `siweSignIn` returns.
use signet_platform.Prelude.{◌≡◌, refl, subst, Option, none, some, List}
use signet_platform.Prelude.Text.{Str, truthy}
use signet_platform.Effects.Failure.{ok, returned}
use signet_platform.Effects.World.{World}
use signet_platform.Effects.Laws.{returned_first, present_first, pure-eq-ok}
use signet_platform.Effects.Wallet.{Wallet}
use signet_platform.Signet.Siwe.{
  Page, Challenge, SignedMessage, first_account, siwe_options, build_siwe_message, sign_with,
  siwe_sign_in,
}

-- The message is that of the challenge for the wallet's active account, at some time, and the wallet
-- has signed it with this account.
abbrev pub IsSigned : Option Wallet → Page → Challenge → World → SignedMessage → Type 0
IsSigned o page c t m =
    (wallet : Wallet) × (accounts : Option (List Str)) × (issued_at : Str) × (o ≡ some wallet)
    × (wallet.accounts t.trace ≡ returned accounts)
    × (truthy (first_account accounts) ≡ some m.address)
    × (m.message ≡ build_siwe_message (siwe_options page c m.address) issued_at)
    × (wallet.sign m.message m.address ≡ returned m.signature)

pub siwe_sign_in-IsSigned :
    (o : Option Wallet) (page : Page) (c : Challenge) (t u : World) (m : SignedMessage)
    → siwe_sign_in o page c t ≡ (ok m, u)
    → IsSigned o page c t m
unfolding siwe_sign_in sign_with
siwe_sign_in-IsSigned none page c t u m h = cc h
siwe_sign_in-IsSigned (some wallet) page c t u m h =
    let (accounts, accounts_eq, rest) = returned_first (wallet.accounts t.trace) _ _ m u h in
    let (address, there, rest₂) = present_first _ (truthy (first_account accounts)) _ _ m u rest in
    let (signature, signed, rest₃) = returned_first (wallet.sign _ address) _ _ m u rest₂ in
    subst (IsSigned (some wallet) page c t) (pure-eq-ok _ m _ u rest₃).0
      (wallet, accounts, _, refl, accounts_eq, there, refl, signed)
