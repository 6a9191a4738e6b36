-- ===== src/Credentials/Secrecy.antt =====
-- web/app/(console)/apps/[appId]/credentials/page.tsx: the private half of an authorization key.
use signet_platform.Prelude.{ℕ, ◌≡◌, refl, ◌⊎◌, inl, inr, List, ◌++◌}
use signet_platform.Prelude.Text.{Str, codes, truthy}
use signet_platform.Prelude.Hex.{bytes_to_hex}
use signet_platform.Effects.Failure.{Failure, Result, ok, err}
use signet_platform.Effects.World.{World, pure, continue}
use signet_platform.Api.Query.{Urls}
use signet_platform.Onchain.Call.{Console}
use signet_platform.Credentials.{Context, create_auth_key, register_key}

same_tab :
    {A : Type 0} (r : Result (Unit {0})) (a b : A) (w : World)
    → (continue r (λ u. pure a) w).1 ≡ (continue r (λ u. pure b) w).1
same_tab (ok u) a b w = refl
same_tab (err e) a b w = refl

shown_or_failed :
    {A : Type 0} (r : Result (Unit {0})) (a : A) (w : World)
    → ((continue r (λ u. pure a) w).0 ≡ ok a)
      ⊎ ((e : Failure) × ((continue r (λ u. pure a) w).0 ≡ err e))
shown_or_failed (ok u) a w = inl refl
shown_or_failed (err e) a w = inr (e, refl)

module _ (c : Console) (urls : Urls) (arguments : Str → c.viem.Args) where
  -- Two private keys with the same public key leave the tab alike, and so every request, whether the
  -- registration succeeds or fails: the private key is in none of them. The page is given the private
  -- key, or an error.
  pub create_auth_key-same_tab :
      (app_id : Str) (x : Context) (label : Str) (secret other public : List ℕ) (w : World)
      → ((create_auth_key c urls arguments app_id x label
            (record { private_key = secret; public_key = public })
            w).1
          ≡ (create_auth_key c urls arguments app_id x label
              (record { private_key = other; public_key = public })
              w).1)
        × (((create_auth_key c urls arguments app_id x label
                (record { private_key = secret; public_key = public })
                w).0
              ≡ ok (bytes_to_hex secret))
            ⊎ ((e : Failure) × ((create_auth_key c urls arguments app_id x label
                    (record { private_key = secret; public_key = public })
                    w).0
                  ≡ err e)))
  unfolding create_auth_key
  create_auth_key-same_tab app_id x label secret other public w =
      let done : Result (Unit {0}) × World =
        register_key c urls arguments app_id x (truthy x.group_address) x.network x.user label
          (codes "0x" ++ bytes_to_hex public) w in
      (
        same_tab done.0 (bytes_to_hex secret) (bytes_to_hex other) done.1,
        shown_or_failed done.0 (bytes_to_hex secret) done.1,
      )
