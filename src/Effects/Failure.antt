-- ===== src/Effects/Failure.antt =====
-- The errors that web/lib throws, one constructor for each message, with the values that the
-- message shows; `thrown` is an error of code that web/lib calls.
use signet_platform.Prelude.{ℕ, Option}
use signet_platform.Prelude.Text.{Str}

pub data Failure : Type 0 where
  no_signing_session no_smart_wallet no_entrypoint no_account_factory no_factory : Failure
  no_bootstrap_group no_bootstrap_nodes session_expired no_group_signature no_public_key : Failure
  restore_needs_sign_in no_ethereum_wallet no_browser_wallet no_wallet_account reverted : Failure
  bad_number syntax_error storage_refused lost_challenge token_expired : Failure
  no_google_client no_network no_group : Failure
  no_node_endpoint no_key_session no_inventory_session not_json : Failure
  node_refused : Str → Str → Failure
  certificate_refused : Str → Failure
  wrong_account : Option Str → Str → Failure
  not_confirmed : Str → Failure
  upload_failed : ℕ → Failure
  no_transport : Str → Failure
  api_error : ℕ → Str → Failure
  thrown : Str → Failure

pub data Result {ℓ} (A : Type ℓ) : Type ℓ where
  ok : A → Result A
  err : Failure → Result A

-- A value that may be missing, as the failure that is thrown for it.
abbrev pub or_throw {ℓ} : {A : Type ℓ} → Failure → Option A → Result A
or_throw e o = elim o [ Option.none ↦ err e | Option.some a ↦ ok a ]

-- What code outside this repository gives back: a value, or an error of its own with its message.
pub data Answer {ℓ} (A : Type ℓ) : Type ℓ where
  returned : A → Answer A
  threw : Str → Answer A

abbrev pub external {ℓ} : {A : Type ℓ} → Answer A → Result A
external (returned a) = ok a
external (threw m) = err (thrown m)
