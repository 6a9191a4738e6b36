-- ===== src/Tests/SessionKey.antt =====
-- web/lib/session-key.ts at concrete inputs.
use signet_platform.Prelude.{ℕ, ◌+◌, ◌*◌, ◌<◌, ◌≡◌, refl, arith, some, [], ◌∷◌, true}
use signet_platform.Prelude.Text.{codes}
use signet_platform.Prelude.Hex.{bytes_to_hex, hex_to_bytes}
use signet_platform.Effects.Failure.{ok}
use signet_platform.SessionKey.{
  store_signing_session, load_signing_session, is_expired, signing_session_expires_at,
}
use signet_platform.SessionKey.Roundtrip.{IsStorable, load-store}
use signet_platform.SessionKey.Expiry.{load-IsFresh}
use signet_platform.Tests.Samples.{claims, codec, session, tab, full_tab, found}

hex_text : bytes_to_hex (0 ∷ 10 ∷ 255 ∷ []) ≡ codes "000aff"
unfolding bytes_to_hex
hex_text = refl

abbrev early : ℕ
early = 1_699_999_000_000

session-IsStorable : IsStorable codec session (tab early (some (codes "siwe:0x1")))
unfolding is_expired signing_session_expires_at bytes_to_hex
session-IsStorable = record {
  readable = refl;
  accepts = λ c k v. refl;
  bytes = omega arith;
  has_private = refl;
  has_public = refl;
  has_claims = refl;
  has_group = refl;
  parses = refl;
  fresh = refl;
}

-- The session has no identity, and the one of an earlier session is read back with it.
load-store_example :
    load_signing_session codec
      (store_signing_session codec session (tab early (some (codes "siwe:0x1")))).1
    ≡ (
      ok (
          some (record session {
            identity = some (codes "siwe:0x1");
            node_url = some (codes "https://node1");
          })),
      (store_signing_session codec session (tab early (some (codes "siwe:0x1")))).1,
    )
load-store_example =
    load-store codec session (tab early (some (codes "siwe:0x1"))) session-IsStorable

full_tab_loads : load_signing_session codec (full_tab early) ≡ (ok (some found), full_tab early)
unfolding load_signing_session hex_to_bytes
full_tab_loads = refl

load-IsFresh_example :
    ((full_tab early).now + 120_000 < 1_700_000_000 * 1000) × (full_tab early ≡ full_tab early)
load-IsFresh_example =
    load-IsFresh codec (full_tab early) (full_tab early) found 1_700_000_000 full_tab_loads refl
      (omega arith) (omega arith)

-- Two minutes before its expiry the session counts as expired.
abbrev late : ℕ
late = 1_699_999_880_000

late_expired : is_expired (full_tab late).now (signing_session_expires_at claims) ≡ true
unfolding is_expired signing_session_expires_at
late_expired = refl
