-- ===== src/SessionKey.antt =====
-- web/lib/session-key.ts: the signing session that a tab keeps in `sessionStorage`.
-- The JSON text of the claims is a parameter, `Codec`.
pub mod Roundtrip
pub mod Expiry
use signet_platform.Prelude.{
  ℕ, ◌+◌, ◌*◌, Bool, true, false, Option, none, some, List, leb, ltb, if◌then◌else◌, ◌&&◌, not,
}
use signet_platform.Prelude.Text.{Str, truthy}
use signet_platform.Prelude.Hex.{bytes_to_hex, hex_to_bytes}
use signet_platform.Effects.Failure.{Result, ok, err, syntax_error, or_throw}
use signet_platform.Effects.World.{
  Slot, priv_key, pub_key, claims_key, group_key, identity_key, node_key, World, Exec, ◌>>=◌, ◌>>◌,
  pure, lift, try_catch, get_item, set_item, remove_item,
}

-- The type of the field `exp` is checked at run time; `other` is any value that is no number.
pub data ExpiryClaim : Type 0 where
  number : ℕ → ExpiryClaim
  other : ExpiryClaim

pub record Claims : Type 0 where
  pub iss : Str
  pub sub : Str
  pub exp : ExpiryClaim
  pub aud : Str
  pub azp : Str

pub record SessionKeypair : Type 0 where
  pub private_key : List ℕ
  pub public_key_hex : Str

pub record SigningSession : Type 0 where
  pub keypair : SessionKeypair
  pub claims : Claims
  pub group_public_key : Str
  pub identity : Option Str
  pub node_url : Option Str

-- `JSON.stringify` and `JSON.parse` at the claims; `none` is a `SyntaxError`.
pub record Codec : Type 0 where
  pub stringify : Claims → Str
  pub parse : Str → Option Claims

-- A `Date`, which is invalid past 8.64e15 milliseconds.
pub data Date : Type 0 where
  at : ℕ → Date
  invalid : Date

unfoldable pub new_date : ℕ → Date
new_date ms = if leb ms 8_640_000_000_000_000 then at ms else invalid

-- `EXPIRY_SKEW_SECONDS * 1_000`
abbrev pub expiry_skew_ms : ℕ
expiry_skew_ms = 120_000

-- `typeof exp === "number" && exp > 0 ? new Date(exp * 1000) : null`
expires_at : ExpiryClaim → Option Date
expires_at (number n) = if ltb 0 n then some (new_date (n * 1000)) else none
expires_at other = none

unfoldable pub signing_session_expires_at : Claims → Option Date
unfolding new_date expires_at
signing_session_expires_at c = expires_at c.exp

-- `expiresAt && Date.now() >= expiresAt.getTime() - EXPIRY_SKEW_SECONDS * 1_000`; the comparison
-- with the NaN of an invalid date is false.
unfoldable pub is_expired : ℕ → Option Date → Bool
is_expired now none = false
is_expired now (some (at ms)) = leb ms (now + expiry_skew_ms)
is_expired now (some invalid) = false

clear_slots : Exec (Unit {0})
clear_slots = do
  remove_item priv_key
  remove_item pub_key
  remove_item claims_key
  remove_item group_key
  remove_item identity_key
  remove_item node_key

unfoldable pub clear_signing_session : Exec (Unit {0})
unfolding clear_slots
clear_signing_session = try_catch clear_slots (pure tt)

-- `if (value) sessionStorage.setItem(slot, value); else otherwise`
unfoldable pub set_or : Slot → Option Str → Exec (Unit {0}) → Exec (Unit {0})
set_or k (some v) otherwise = set_item k v
set_or k none otherwise = otherwise

module _ (json : Codec) where
  unfoldable pub store_slots : SigningSession → Exec (Unit {0})
  unfolding set_or
  store_slots s = do
    set_item priv_key (bytes_to_hex s.keypair.private_key)
    set_item pub_key s.keypair.public_key_hex
    set_item claims_key (json.stringify s.claims)
    set_item group_key s.group_public_key
    set_or identity_key (truthy s.identity) (pure tt)
    set_or node_key (truthy s.node_url) (remove_item identity_key)

  unfoldable pub store_signing_session : SigningSession → Exec (Unit {0})
  unfolding store_slots
  store_signing_session s = try_catch (store_slots s) (pure tt)

  -- The session of the four texts that must be there, and the two that may be missing.
  read_session : Str → Str → Str → Str → Exec (Option SigningSession)
  unfolding is_expired signing_session_expires_at clear_signing_session
  read_session priv key claims group = do
    parsed ← lift (or_throw syntax_error (json.parse claims))
    now ← λ w. (ok w.now, w)
    if is_expired now (signing_session_expires_at parsed)
        then (clear_signing_session >> pure none)
        else do
          identity ← get_item identity_key
          node_url ← get_item node_key
          pure (
              some (record {
                keypair = record { private_key = hex_to_bytes priv; public_key_hex = key };
                claims = parsed;
                group_public_key = group;
                identity = identity;
                node_url = node_url;
              }))

  -- `if (!priv || !pub || !claims || !group) return null;`
  read_present : Option Str → Option Str → Option Str → Option Str → Exec (Option SigningSession)
  unfolding read_session
  read_present (some p) (some k) (some c) (some g) = read_session p k c g
  read_present _ _ _ _ = pure none

  load_slots : Exec (Option SigningSession)
  unfolding read_present
  load_slots = do
    priv ← get_item priv_key
    key ← get_item pub_key
    claims ← get_item claims_key
    group ← get_item group_key
    read_present (truthy priv) (truthy key) (truthy claims) (truthy group)

  unfoldable pub load_signing_session : Exec (Option SigningSession)
  unfolding load_slots
  load_signing_session = try_catch load_slots (pure none)
