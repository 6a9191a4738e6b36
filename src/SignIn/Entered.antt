-- ===== src/SignIn/Entered.antt =====
-- web/app/auth/callback/page.tsx: what a sign-in that completes has done.
use signet_platform.Prelude.{
  ℕ, ◌*◌, ◌≤◌, ltb, not, filter, [], ◌∷◌, ◌++◌, ◌≡◌, subst, sym, ap, ◌∙◌, Bool, true, false, Option,
  none, some, head?, arith,
}
use signet_platform.Prelude.Text.{Str, codes, truthy, ◌===◌}
use signet_platform.Types.Account.{NetworkConfig}
use signet_platform.Effects.Failure.{token_expired, Result, ok, returned}
use signet_platform.Effects.World.{await, called, World, Cells, nonce_key, emit, signed_in}
use signet_platform.Effects.Stages.{session_key}
use signet_platform.Effects.Keeps.{stored}
use signet_platform.Effects.Laws.{
  >>=-eq-ok, returned_first, present_first, unless_first, pure-eq-ok,
}
use signet_platform.Effects.Host.{Host}
use signet_platform.Api.{store_token}
use signet_platform.Api.AppEndpoints.{send}
use signet_platform.Api.Keeps.{Keeps-send}
use signet_platform.SessionKey.{Claims, number, SessionKeypair, Codec, store_signing_session}
use signet_platform.Provision.Requests.{GeneratedKey}
use signet_platform.SignIn.Sdk.{Sdk, GroupConfig, VerifyResult, token_is_over}
use signet_platform.Effects.Json.{Json}
use signet_platform.SignIn.Verified.{HasVerified, verify_steps-HasVerified}
use signet_platform.SignIn.Callback.{
  open_steps, key_steps, verify_steps, enter_steps, complete_sign_in, pinned_first, signed_session,
  recall_nonce, forget_nonce, at,
}

module _ (sdk : Sdk) (host : Host) (json : Codec) (network : NetworkConfig) where
  -- The tab `w` once the callback has been handled.
  abbrev pub handled : World → World
  handled w = (await (called (codes "handleOAuthCallback")) (at session_key w).1).1

  -- The tab held a challenge, the token that the callback read was not over then, and its claims are
  -- those of the session.
  abbrev pub HasToken : World → Str × Claims × SessionKeypair → Type 0
  HasToken w (jwt, claims, keypair) =
      ((nonce : Str) × (truthy (w.cells nonce_key) ≡ some nonce))
      × (sdk.oauth_callback (codes "/api/auth/token") ≡ returned jwt)
      × (sdk.decode_token jwt ≡ returned claims)
      × (sdk.provider.new_keypair ≡ returned keypair)
      × ((n : ℕ) → claims.exp ≡ number n → (handled w).now ≤ n * 1000)

  still_young :
      (claims : Claims) (now n : ℕ)
      → token_is_over claims now ≡ false
      → claims.exp ≡ number n
      → now ≤ n * 1000
  unfolding token_is_over
  still_young claims now n h e =
      let late : ltb (n * 1000) now ≡ false = simp (e, token_is_over) at h in ground arith

  recall_nonce_lem :
      (w v : World) (found : Option Str)
      → recall_nonce w ≡ (ok found, v)
      → (w.cells nonce_key ≡ found) × (v ≡ w)
  recall_nonce_lem w v found h = (ground arith, ground arith)

  open_steps-HasToken :
      (w w' : World) (o : Str × Claims × SessionKeypair)
      → open_steps sdk host json network w ≡ (ok o, w')
      → HasToken w o
  unfolding open_steps
  open_steps-HasToken w w' o h =
      let (nonce, v, recalled, rest) = >>=-eq-ok recall_nonce _ w o w' h in
      let (there, nonce_eq, rest₂) = present_first _ (truthy nonce) _ v o w' rest in
      let (jwt, jwt_eq, rest₃) =
        returned_first (sdk.oauth_callback (codes "/api/auth/token")) _ _ o w' rest₂ in
      let (claims, claims_eq, rest₄) = returned_first (sdk.decode_token jwt) _ _ o w' rest₃ in
      let (young, rest₅) =
        unless_first (token_is_over claims (handled v).now) token_expired tt _ _ o w' rest₄ in
      let (keypair, keypair_eq, rest₆) = returned_first sdk.provider.new_keypair _ _ o w' rest₅ in
      let (cell, same) = recall_nonce_lem w v nonce recalled in
      subst (HasToken w) (pure-eq-ok (jwt, claims, keypair) o _ w' rest₆).0 (
        (there, ap truthy cell ∙ nonce_eq),
        jwt_eq,
        claims_eq,
        keypair_eq,
        λ n e.
            still_young claims (handled w).now n
              (subst (λ t. token_is_over claims (handled t).now ≡ false) same young) e,
      )

  -- The bootstrap group at one node, and with this node before the network's others.
  abbrev pub alone : Str → GroupConfig
  alone node = record {
    group_id = network.bootstrap_group;
    node_urls = node ∷ [];
    proxy_endpoint = host.api_base ++ codes "/v1/node/bootstrap-proxy";
  }

  abbrev pub before_others : Str → GroupConfig
  before_others node = record (alone node) {
    node_urls = node ∷ filter (λ n. not (n === node)) network.bootstrap_nodes;
  }

  -- The key came from the node that opened the session, the first of the network's.
  abbrev pub HasNode : Str × Claims × SessionKeypair → Str × GeneratedKey → Type 0
  HasNode (jwt, claims, keypair) (node, key) =
      (truthy (head? network.bootstrap_nodes) ≡ some node)
      × ((proof : sdk.Proof) × (sdk.server_proof (codes "/api/bundler") jwt keypair.public_key_hex
            ≡ returned proof)
          × (sdk.authenticate (alone node) proof keypair.public_key_hex claims ≡ returned tt))
      × (sdk.keygen (before_others node) keypair claims ≡ returned key)

  key_steps-HasNode :
      (w w' : World) (o : Str × Claims × SessionKeypair) (l : Str × GeneratedKey)
      → key_steps sdk host json network o w ≡ (ok l, w')
      → HasNode o l
  unfolding key_steps pinned_first
  key_steps-HasNode w w' (jwt, claims, keypair) l h =
      let (proof, proof_eq, rest) =
        returned_first (sdk.server_proof (codes "/api/bundler") jwt keypair.public_key_hex) _ _ l w'
          h in
      let (node, node_eq, rest₂) =
        present_first _ (truthy (head? network.bootstrap_nodes)) _ _ l w' rest in
      let (opened, opened_eq, rest₃) =
        returned_first (sdk.authenticate (alone node) proof keypair.public_key_hex claims) _ _ l w'
          rest₂ in
      let (key, key_eq, rest₄) =
        returned_first (sdk.keygen (pinned_first host network node) keypair claims) _ _ l w'
          rest₃ in
      subst (HasNode (jwt, claims, keypair)) (pure-eq-ok (node, key) l _ w' rest₄).0
        (node_eq, (proof, proof_eq, opened_eq), key_eq)

  -- What it leaves: no nonce, and the platform's token where a token can be kept.
  abbrev pub IsLeft : VerifyResult → Cells × Option Str × Bool → Type 0
  IsLeft result (cells, token, usable) =
      (cells nonce_key ≡ none) × (usable ≡ true → token ≡ truthy (some result.token))

  forget_nonce-none : (v w : World) → forget_nonce v ≡ (ok tt, w) → w.cells nonce_key ≡ none
  forget_nonce-none v w h = ground arith

  store_token-IsLeft :
      (r : VerifyResult) (v : World)
      → v.cells nonce_key ≡ none
      → IsLeft r (stored (store_token (some r.token) v).1)
  unfolding store_token
  store_token-IsLeft r v h = (ground arith, ground arith)

  enter_steps-IsLeft :
      (w w' : World) (o : Str × Claims × SessionKeypair) (l : Str × GeneratedKey)
      (v : Option Str × VerifyResult)
      → enter_steps sdk host json network o l v w ≡ (ok tt, w')
      → IsLeft v.1 (stored w')
  unfolding enter_steps
  enter_steps-IsLeft w w' (jwt, claims, keypair) (node, key) (account, result) h =
      let (done, v, stored_eq, rest) =
        >>=-eq-ok (store_signing_session json (signed_session keypair claims key node)) _ w tt w'
          h in
      let (done₂, v₂, gone_eq, rest₂) = >>=-eq-ok forget_nonce _ v tt w' rest in
      let kept : World = (emit (signed_in result.token) (store_token (some result.token) v₂).1).1 in
      let (answer, v₃, sent_eq, rest₃) = >>=-eq-ok (send host _) _ kept tt w' rest₂ in
      subst (IsLeft result)
        (sym (Keeps-send host _ kept)
          ∙ ap (λ (x : Result Json × World). stored x.1) sent_eq
          ∙ ap (λ (x : Result (Unit {0}) × World). stored x.1) rest₃)
        (store_token-IsLeft result v₂ (forget_nonce-none v v₂ gone_eq))

  -- How a sign-in that began in the tab `w` came to the tab `w'`.
  abbrev pub IsSignedIn : World → World → Type 0
  IsSignedIn w w' =
      (opened : Str × Claims × SessionKeypair) × (located : Str × GeneratedKey) × (verified : Option
          Str
        × VerifyResult)
      × (v x : World) × HasToken w opened
      × HasNode opened located
      × HasVerified sdk host json network opened located v verified x
      × IsLeft verified.1 (stored w')

  -- A sign-in that completes began with a challenge of the tab, has read a token that was not over
  -- when it was read, has opened its session at the first bootstrap node, with a proof for this
  -- token and the session's key, and located the key from that node first, has had the platform
  -- verify the group's signature of its challenge, with the challenge's nonce, and leaves the
  -- platform's token, where a token can be kept, and no challenge.
  pub complete_sign_in-IsSignedIn :
      (w w' : World) → complete_sign_in sdk host json network w ≡ (ok tt, w') → IsSignedIn w w'
  unfolding complete_sign_in
  complete_sign_in-IsSignedIn w w' h =
      let (opened, u, p, rest) = >>=-eq-ok (open_steps sdk host json network) _ w tt w' h in
      let (located, v, q, rest₂) =
        >>=-eq-ok (key_steps sdk host json network opened) _ u tt w' rest in
      let (verified, x, r, rest₃) =
        >>=-eq-ok (verify_steps sdk host json network opened located) _ v tt w' rest₂ in
      (
        opened,
        located,
        verified,
        v,
        x,
        open_steps-HasToken w u opened p,
        key_steps-HasNode u v opened located q,
        verify_steps-HasVerified sdk host json network opened located v x verified r,
        enter_steps-IsLeft x w' opened located verified rest₃,
      )
