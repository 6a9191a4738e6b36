-- ===== src/SessionKey/Expiry.antt =====
-- web/lib/session-key.ts: an expired session is never handed out, and is cleared.
use signet_platform.Prelude.{
  ◌≡◌, refl, ◌+◌, ◌*◌, ◌<◌, ◌≤◌, ℕ, true, false, Option, none, some, arith, inl, inr, Bool-cases,
}
use signet_platform.Prelude.Text.{Str, truthy}
use signet_platform.Effects.Failure.{ok}
use signet_platform.Effects.World.{
  Cells, Slot, priv_key, pub_key, claims_key, group_key, nonce_key, World, identity_key, node_key,
  Exec, remove_item, ◌>>◌,
}
use signet_platform.Effects.Laws.{try_catch_total, try_catch-some}
use signet_platform.Effects.Keeps.{Keeps, Keeps->>=, Keeps-try, Keeps-remove, token}
use signet_platform.SessionKey.{
  Claims, Codec, SigningSession, number, load_signing_session, clear_signing_session, is_expired,
  signing_session_expires_at, read_session, read_present, load_slots, clear_slots,
}

-- The cells without a signing session; a challenge's nonce stays.
abbrev pub cleared : Cells → Cells
cleared c nonce_key = c nonce_key
cleared c _ = none

pub clear_lem : (w : World) → w.readable ≡ true → (clear_signing_session w).0 ≡ ok tt
unfolding clear_signing_session
clear_lem w r = simp r

-- Nor does it touch the session token.
pub Keeps-clear : Keeps token clear_signing_session
unfolding clear_signing_session clear_slots
Keeps-clear =
    Keeps-try token clear_slots _
      (then priv_key _ (
        then pub_key _
          (then claims_key _ (then group_key _ (then identity_key _ (Keeps-remove node_key))))))
      (λ w. refl)
  where
    then : (k : Slot) (m : Exec (Unit {0})) → Keeps token m → Keeps token (remove_item k >> m)
    then k m h = Keeps->>= token (remove_item k) (λ u. m) (Keeps-remove k) (λ u. h)

pub cells-clear :
    (w : World) (k : Slot)
    → w.readable ≡ true
    → (clear_signing_session w).1.cells k ≡ cleared w.cells k
unfolding clear_signing_session
cells-clear w priv_key r = simp r
cells-clear w k r = simp r

read_session_fresh :
    (json : Codec) (p k t g : Str) (w w' : World) (s : SigningSession)
    → read_session json p k t g w ≡ (ok (some s), w')
    → (is_expired w.now (signing_session_expires_at s.claims) ≡ false) × (w' ≡ w)
unfolding read_session
read_session_fresh json p k t g w w' s e = ground arith

read_present_fresh :
    (json : Codec) (p k t g : Option Str) (w w' : World) (s : SigningSession)
    → read_present json p k t g w ≡ (ok (some s), w')
    → (is_expired w.now (signing_session_expires_at s.claims) ≡ false) × (w' ≡ w)
unfolding read_present
read_present_fresh json (some p) (some k) (some t) (some g) w w' s e =
    read_session_fresh json p k t g w w' s e
read_present_fresh json _ _ _ _ w w' s e = ground arith

load_slots_fresh :
    (json : Codec) (w w' : World) (s : SigningSession)
    → load_slots json w ≡ (ok (some s), w')
    → (is_expired w.now (signing_session_expires_at s.claims) ≡ false) × (w' ≡ w)
unfolding load_slots
load_slots_fresh json w w' s e = elim (Bool-cases w.readable) [
  | inl r ↦
      read_present_fresh json (truthy (w.cells priv_key)) (truthy (w.cells pub_key))
        (truthy (w.cells claims_key)) (truthy (w.cells group_key)) w w' s (simp r at e)
  | inr r ↦ cc (simp r at e)
]

load_fresh :
    (json : Codec) (w w' : World) (s : SigningSession)
    → load_signing_session json w ≡ (ok (some s), w')
    → (is_expired w.now (signing_session_expires_at s.claims) ≡ false) × (w' ≡ w)
unfolding load_signing_session
load_fresh json w w' s e = load_slots_fresh json w w' s (try_catch-some (load_slots json) w w' s e)

-- Handing out a session changes nothing.
pub load_unchanged :
    (json : Codec) (w w' : World) (s : SigningSession)
    → load_signing_session json w ≡ (ok (some s), w')
    → w' ≡ w
load_unchanged json w w' s e = (load_fresh json w w' s e).1

-- A session that is handed out whose claims carry an expiry, at second `n`, expires more than 120
-- seconds after the read, and the read changed nothing.
pub load-IsFresh :
    (json : Codec) (w w' : World) (s : SigningSession) (n : ℕ)
    → load_signing_session json w ≡ (ok (some s), w')
    → s.claims.exp ≡ number n
    → 0 < n
    → n * 1000 ≤ 8_640_000_000_000_000
    → (w.now + 120_000 < n * 1000) × (w' ≡ w)
unfolding is_expired signing_session_expires_at
load-IsFresh json w w' s n e x pos valid = ground (arith, load_fresh json w w' s e)

-- An expired session that is there and parses is not handed out: the read returns null, and of the
-- tab's cells it clears those of the session and leaves the others.
pub load_expired :
    (json : Codec) (w : World) (p k t g : Str) (c : Claims)
    → w.readable ≡ true
    → truthy (w.cells priv_key) ≡ some p
    → truthy (w.cells pub_key) ≡ some k
    → truthy (w.cells claims_key) ≡ some t
    → truthy (w.cells group_key) ≡ some g
    → json.parse t ≡ some c
    → is_expired w.now (signing_session_expires_at c) ≡ true
    → ((load_signing_session json w).0 ≡ ok none)
      × ((j : Slot) → (load_signing_session json w).1.cells j ≡ cleared w.cells j)
unfolding load_signing_session clear_signing_session
load_expired json w p k t g c r hp hk ht hg parsed expired =
    (simp (r, hp, hk, ht, hg, parsed, expired), slot)
  where
    slot : (j : Slot) → (load_signing_session json w).1.cells j ≡ cleared w.cells j
    slot priv_key = simp (r, hp, hk, ht, hg, parsed, expired)
    slot j = simp (r, hp, hk, ht, hg, parsed, expired)

-- The read never throws.
pub load_total :
    (json : Codec) (w : World)
    → (r : Option SigningSession) × ((load_signing_session json w).0 ≡ ok r)
unfolding load_signing_session
load_total json w = try_catch_total (load_slots json) none w
