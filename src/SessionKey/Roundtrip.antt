-- ===== src/SessionKey/Roundtrip.antt =====
-- web/lib/session-key.ts: what a later read finds after a session was stored.
use signet_platform.Prelude.{◌≡◌, ◌∙◌, ap, refl, true, false, Option, none, some}
use signet_platform.Prelude.Text.{Str, truthy}
use signet_platform.Prelude.{All}
use signet_platform.Prelude.Hex.{bytes_to_hex, hex_to_bytes}
use signet_platform.Prelude.Hex.Laws.{IsByte, hex_to_bytes-bytes_to_hex}
use signet_platform.Effects.Failure.{Result, ok}
use signet_platform.Effects.World.{
  Cells, Slot, update, priv_key, pub_key, claims_key, group_key, identity_key, node_key, World,
  Exec, ◌>>=◌, set_item, remove_item, recover, pure,
}
use signet_platform.SessionKey.{
  Claims, Codec, SigningSession, store_signing_session, load_signing_session, is_expired,
  store_slots, set_or, signing_session_expires_at,
}

-- The identity in storage after a session is stored: `old` is the one that was there before.
abbrev pub kept_identity : Option Str → Option Str → Option Str → Option Str
kept_identity given none old = none
kept_identity (some i) (some n) old = some i
kept_identity none (some n) old = old

abbrev pub kept_node : Option Str → Option Str → Option Str
kept_node (some n) old = some n
kept_node none old = old

-- What a tab needs for a stored session to be read back.
pub record IsStorable (json : Codec) (s : SigningSession) (w : World) : Type 0 where
  pub readable : w.readable ≡ true
  pub accepts : (c : Cells) (k : Slot) (v : Str) → w.accepts c k v ≡ true
  pub bytes : All IsByte s.keypair.private_key
  pub has_private :
      truthy (some (bytes_to_hex s.keypair.private_key)) ≡ some (bytes_to_hex s.keypair.private_key)
  pub has_public : truthy (some s.keypair.public_key_hex) ≡ some s.keypair.public_key_hex
  pub has_claims : truthy (some (json.stringify s.claims)) ≡ some (json.stringify s.claims)
  pub has_group : truthy (some s.group_public_key) ≡ some s.group_public_key
  pub parses : json.parse (json.stringify s.claims) ≡ some s.claims
  pub fresh : is_expired w.now (signing_session_expires_at s.claims) ≡ false

-- The cells after a session with the truthy identity `i` and node `n` is stored.
stored_cells : Codec → SigningSession → Option Str → Option Str → Cells → Cells
stored_cells json s i n c = last n (middle i base)
  where
    base : Cells
    base =
        update
          (update
            (update (update c priv_key (some (bytes_to_hex s.keypair.private_key))) pub_key
              (some s.keypair.public_key_hex))
            claims_key (some (json.stringify s.claims)))
          group_key (some s.group_public_key)

    middle : Option Str → Cells → Cells
    middle none c = c
    middle (some v) c = update c identity_key (some v)

    last : Option Str → Cells → Cells
    last none c = update c identity_key none
    last (some v) c = update c node_key (some v)

module _ (json : Codec) (s : SigningSession) (w : World) (h : IsStorable json s w) where
  set_then :
      (c : Cells) (k : Slot) (v : Str) (f : Unit {0} → Exec (Unit {0}))
      → (set_item k v >>= f) (record w { cells = c })
        ≡ f tt (record w { cells = update c k (some v) })
  set_then c k v f = simp (h.readable, h.accepts)

  remove_at :
      (c : Cells) (k : Slot)
      → remove_item k (record w { cells = c }) ≡ (ok tt, record w { cells = update c k none })
  remove_at c k = simp h.readable

  set_at :
      (c : Cells) (k : Slot) (v : Str)
      → set_item k v (record w { cells = c }) ≡ (ok tt, record w { cells = update c k (some v) })
  set_at c k v = simp (h.readable, h.accepts)

  slots_at :
      (i n : Option Str)
      → truthy s.identity ≡ i
      → truthy s.node_url ≡ n
      → store_slots json s w ≡ (ok tt, record w { cells = stored_cells json s i n w.cells })
  unfolding store_slots set_or stored_cells
  slots_at none none p q =
      rw (p, q)
        (set_then _ priv_key _ _
          ∙ set_then _ pub_key _ _
          ∙ set_then _ claims_key _ _
          ∙ set_then _ group_key _ _
          ∙ remove_at _ identity_key)
  slots_at (some i) none p q =
      rw (p, q)
        (set_then _ priv_key _ _
          ∙ set_then _ pub_key _ _
          ∙ set_then _ claims_key _ _
          ∙ set_then _ group_key _ _
          ∙ set_then _ identity_key i _
          ∙ remove_at _ identity_key)
  slots_at none (some n) p q =
      rw (p, q)
        (set_then _ priv_key _ _
          ∙ set_then _ pub_key _ _
          ∙ set_then _ claims_key _ _
          ∙ set_then _ group_key _ _
          ∙ set_at _ node_key n)
  slots_at (some i) (some n) p q =
      rw (p, q)
        (set_then _ priv_key _ _
          ∙ set_then _ pub_key _ _
          ∙ set_then _ claims_key _ _
          ∙ set_then _ group_key _ _
          ∙ set_then _ identity_key i _
          ∙ set_at _ node_key n)

  store_at :
      (i n : Option Str)
      → truthy s.identity ≡ i
      → truthy s.node_url ≡ n
      → store_signing_session json s w
        ≡ (ok tt, record w { cells = stored_cells json s i n w.cells })
  unfolding store_signing_session
  store_at i n p q =
      ap (λ (r : Result (Unit {0}) × World). recover r.0 (pure tt) r.1) (slots_at i n p q)

-- Reading a tab whose four texts are there, parse and have not expired.
load_at :
    (json : Codec) (w : World) (p k t g : Str) (c : Claims)
    → w.readable ≡ true
    → truthy (w.cells priv_key) ≡ some p
    → truthy (w.cells pub_key) ≡ some k
    → truthy (w.cells claims_key) ≡ some t
    → truthy (w.cells group_key) ≡ some g
    → json.parse t ≡ some c
    → is_expired w.now (signing_session_expires_at c) ≡ false
    → load_signing_session json w ≡ (
      ok (
          some (record {
            keypair = record { private_key = hex_to_bytes p; public_key_hex = k };
            claims = c;
            group_public_key = g;
            identity = w.cells identity_key;
            node_url = w.cells node_key;
          })),
      w,
    )
unfolding load_signing_session
load_at json w p k t g c r hp hk ht hg parsed fresh = simp (r, hp, hk, ht, hg, parsed, fresh)

module _ (json : Codec) (s : SigningSession) (w : World) (h : IsStorable json s w) where
  -- The tab after the session with the truthy identity `i` and node `n` is stored.
  abbrev stored_world : Option Str → Option Str → World
  stored_world i n = record w { cells = stored_cells json s i n w.cells }

  -- The session that is read back from it.
  abbrev read_back : Option Str → Option Str → SigningSession
  read_back i n = record s {
    identity = kept_identity i n (w.cells identity_key);
    node_url = kept_node n (w.cells node_key);
  }

  read_at :
      (i n : Option Str)
      → truthy ((stored_world i n).cells priv_key) ≡ some (bytes_to_hex s.keypair.private_key)
      → truthy ((stored_world i n).cells pub_key) ≡ some s.keypair.public_key_hex
      → truthy ((stored_world i n).cells claims_key) ≡ some (json.stringify s.claims)
      → truthy ((stored_world i n).cells group_key) ≡ some s.group_public_key
      → load_signing_session json (stored_world i n) ≡ (
        ok (
            some (record s {
              identity = (stored_world i n).cells identity_key;
              node_url = (stored_world i n).cells node_key;
            })),
        stored_world i n,
      )
  read_at i n a b c d =
      rw (load_at json (stored_world i n) _ _ _ _ s.claims h.readable a b c d h.parses h.fresh)
        (rw (hex_to_bytes-bytes_to_hex s.keypair.private_key h.bytes))

  load_stored :
      (i n : Option Str)
      → load_signing_session json (stored_world i n) ≡ (ok (some (read_back i n)), stored_world i n)
  unfolding stored_cells
  load_stored none none = read_at none none h.has_private h.has_public h.has_claims h.has_group
  load_stored (some i) none =
      read_at (some i) none h.has_private h.has_public h.has_claims h.has_group
  load_stored none (some n) =
      read_at none (some n) h.has_private h.has_public h.has_claims h.has_group
  load_stored (some i) (some n) =
      read_at (some i) (some n) h.has_private h.has_public h.has_claims h.has_group

-- A session that a tab could store and that has not expired is read back with the same key pair,
-- claims and group key. Its identity is the one stored before, if the session has none and has a
-- node, and is lost if the session has no node; its node is the one stored before if it has none.
pub load-store :
    (json : Codec) (s : SigningSession) (w : World)
    → IsStorable json s w
    → load_signing_session json (store_signing_session json s w).1 ≡ (
      ok (
          some (record s {
            identity = kept_identity (truthy s.identity) (truthy s.node_url) (w.cells identity_key);
            node_url = kept_node (truthy s.node_url) (w.cells node_key);
          })),
      (store_signing_session json s w).1,
    )
load-store json s w h =
    rw (store_at json s w h (truthy s.identity) (truthy s.node_url) refl refl)
      (load_stored json s w h (truthy s.identity) (truthy s.node_url))
