-- ===== src/Provision/Session.antt =====
-- web/lib/provision.ts: what a provisioning leaves in the tab, when it succeeds and when it fails.
use signet_platform.Prelude.{
  ◌≡◌, refl, sym, ap, ◌∙◌, ◌⊎◌, inl, inr, Bool, Option, some, ◌||◌, length, ◌==◌, arith, Bool-cases,
}
use signet_platform.Prelude.Text.{Str, codes, is_empty}
use signet_platform.Types.Account.{NetworkConfig, NodeCertificate}
use signet_platform.Effects.Failure.{Result, ok, err, Failure, external}
use signet_platform.Effects.Json.{Json}
use signet_platform.Effects.World.{World, ◌>>◌, pure, lift, continue}
use signet_platform.Effects.Stages.{recording, done, wallet}
use signet_platform.Effects.Laws.{>>=-eq-ok}
use signet_platform.Effects.Keeps.{Keeps, Keeps->>=, cells}
use signet_platform.Api.Keeps.{Keeps-request}
use signet_platform.Effects.World.{Cells}
use signet_platform.Effects.Host.{Host}
use signet_platform.Api.{request}
use signet_platform.SessionKey.{Codec, SessionKeypair, store_signing_session}
use signet_platform.Provision.Requests.{
  Provider, GeneratedKey, ProvisionResult, certificate_claims, session_node, session_of, result_of,
  key_json,
}
use signet_platform.Provision.Made.{IsMade, keygen_steps-IsMade}
use signet_platform.Provision.Steps.{
  certify, authenticate, generate, keygen_steps, finish_steps, provision_signet_key,
  counterfactual_account, at,
}

cells_of :
    {A : Type 0} {x y : Result A × World} → ◌≡◌ {A = Result A × World} x y → y.1.cells ≡ x.1.cells
cells_of {A = A} e = sym (ap (λ (r : Result A × World). r.1.cells) e)

module _ (host : Host) (provider : Provider) where
  Keeps-answer :
      (method path : Str) (body : Option Json) → Keeps cells (request host method path body)
  Keeps-answer method path body w =
      ap (λ (s : Cells × Option Str × Bool). s.0) (Keeps-request host method path body w)

  Keeps-certify : (k : SessionKeypair) → Keeps cells (certify host provider k)
  unfolding certify
  Keeps-certify k w =
      Keeps->>= cells (request host _ _ _) (λ j. pure (provider.as_certificate j))
        (Keeps-answer _ _ _) (λ j v. refl) _

  Keeps-authenticate :
      (k : SessionKeypair) (cert : NodeCertificate)
      → Keeps cells (authenticate host provider k cert)
  unfolding authenticate
  Keeps-authenticate k cert w = ground arith

  Keeps-generate :
      (k : SessionKeypair) (cert : NodeCertificate) → Keeps cells (generate host provider k cert)
  unfolding generate
  Keeps-generate k cert w = ground arith

  Keeps-keygen_steps : Keeps cells (keygen_steps host provider)
  unfolding keygen_steps
  Keeps-keygen_steps w =
      Keeps->>= cells (lift (external provider.new_keypair)) _ (λ v. refl)
        (λ k. Keeps->>= cells (certify host provider k) _ (Keeps-certify k) (λ cert.
          Keeps->>= cells (authenticate host provider k cert) _ (Keeps-authenticate k cert) (λ u.
            Keeps->>= cells (generate host provider k cert) _ (Keeps-generate k cert)
              (λ key v. refl))))
        _

  -- A provisioning that made a key: the tab when it was there, and what it was.
  abbrev pub HasKey : World → World → SessionKeypair × NodeCertificate × GeneratedKey → Type 0
  HasKey w u made = keygen_steps host provider w ≡ (ok made, u)

  keygen_cells :
      (w u : World) (made : SessionKeypair × NodeCertificate × GeneratedKey)
      → HasKey w u made
      → u.cells ≡ w.cells
  keygen_cells w u made h = cells_of h ∙ Keeps-keygen_steps w

  failed_steps :
      (json : Codec) (network : NetworkConfig) (w w' : World) (e : Failure)
      (r : Result (SessionKeypair × NodeCertificate × GeneratedKey)) (u : World)
      → keygen_steps host provider w ≡ (r, u)
      → continue r (finish_steps host provider json network) u ≡ (err e, w')
      → (w'.cells ≡ w.cells)
        ⊎ ((made : SessionKeypair × NodeCertificate × GeneratedKey) × HasKey w u made)
  failed_steps json network w w' e (ok made) u h x = inr (made, h)
  failed_steps json network w w' e (err f) u h x =
      inl (cells_of x ∙ cells_of h ∙ Keeps-keygen_steps w)

  -- A provisioning that fails before the operators have made the key leaves the tab's storage as it
  -- was.
  pub provision_signet_key-failed :
      (json : Codec) (network : NetworkConfig) (w w' : World) (e : Failure)
      → provision_signet_key host provider json network w ≡ (err e, w')
      → (w'.cells ≡ w.cells)
        ⊎ ((u : World) × (made : SessionKeypair × NodeCertificate × GeneratedKey) × HasKey w u made)
  unfolding provision_signet_key
  provision_signet_key-failed json network w w' e x =
      elim (Bool-cases (is_empty network.bootstrap_group || length network.bootstrap_nodes == 0)) [
        | inl missing ↦ inl (refused (simp missing at x))
        | inr there ↦ at_steps (
            failed_steps json network w w' e (keygen_steps host provider w).0
              (keygen_steps host provider w).1 refl (simp there at x))
      ]
    where
      refused :
          {f : Failure}
          → ◌≡◌ {A = Result ProvisionResult × World} (err f, w) (err e, w')
          → w'.cells ≡ w.cells
      refused y = cells_of y

      at_steps :
          {u : World}
          → (w'.cells ≡ w.cells)
            ⊎ ((made : SessionKeypair × NodeCertificate × GeneratedKey) × HasKey w u made)
          → (w'.cells ≡ w.cells)
            ⊎ ((v : World) × (made : SessionKeypair × NodeCertificate × GeneratedKey) × HasKey w v
                  made)
      at_steps (inl same) = inl same
      at_steps (inr (made, h)) = inr (_, made, h)

  Keeps-account :
      (network : NetworkConfig) (key : Str)
      → Keeps cells (counterfactual_account host provider network key)
  unfolding counterfactual_account
  Keeps-account network key w = ground arith

  -- What a provisioning that returned left: the key that the operators made, its public key there,
  -- in the result, and the session of that key written to the storage as it was before.
  abbrev pub IsProvisioned : Codec → NetworkConfig → World → World → ProvisionResult → Type 0
  IsProvisioned json network w w' r =
      (u : World) × (v : World) × (keypair : SessionKeypair) × (cert : NodeCertificate)
      × (key : GeneratedKey) × (account : Option Str) × HasKey w u (keypair, cert, key)
      × IsMade host provider keypair cert key
      × (counterfactual_account host provider network key.group_public_key (at wallet u).1
          ≡ (ok account, v))
      × (r ≡ result_of key account)
      × (v.cells ≡ w.cells)
      × (w'.cells
          ≡ (store_signing_session json
              (record {
                keypair = keypair;
                claims = certificate_claims cert;
                group_public_key = key.group_public_key;
                identity = some cert.identity;
                node_url = session_node cert;
              })
              v).1.cells)

  recorded :
      (body : Json) (res r : ProvisionResult) (v w' : World)
      → (at recording
            >> (request host (codes "PUT") (codes "/v1/me/signet-key") (some body)
                >> (at done >> pure res)))
          v
        ≡ (ok r, w')
      → (r ≡ res) × (w'.cells ≡ v.cells)
  recorded body res r v w' e =
      let (answer, v₃, p, rest) =
        >>=-eq-ok (request host (codes "PUT") (codes "/v1/me/signet-key") (some body))
          (λ j. at done >> pure res) (at recording v).1 r w' e in
      (
        cc rest,
        cells_of rest
            ∙ cells_of p
            ∙ Keeps-answer (codes "PUT") (codes "/v1/me/signet-key") (some body) (at recording v).1,
      )

  finish_ok :
      (json : Codec) (network : NetworkConfig) (keypair : SessionKeypair) (cert : NodeCertificate)
      (key : GeneratedKey) (u w' : World) (r : ProvisionResult)
      → finish_steps host provider json network (keypair, cert, key) u ≡ (ok r, w')
      → (v : World) × (account : Option Str) × (counterfactual_account host provider network
            key.group_public_key
            (at wallet u).1
          ≡ (ok account, v))
        × (r ≡ result_of key account)
        × (v.cells ≡ u.cells)
        × (w'.cells ≡ (store_signing_session json (session_of keypair cert key) v).1.cells)
  unfolding finish_steps
  finish_ok json network keypair cert key u w' r e =
      let (account, v, p, rest) =
        >>=-eq-ok (counterfactual_account host provider network key.group_public_key) _ _ r w' e in
      let (done₂, v₂, p₂, rest₂) =
        >>=-eq-ok (store_signing_session json (session_of keypair cert key)) _ v r w' rest in
      let (same, kept) = recorded (key_json key account) (result_of key account) r v₂ w' rest₂ in
      (
        v,
        account,
        p,
        same,
        cells_of p ∙ Keeps-account network key.group_public_key (at wallet u).1,
        kept ∙ cells_of p₂,
      )

  -- A provisioning that returns has had the platform certify a new session key, has had a key made for
  -- it by the operators, gives back that key's values, and has stored the session of that key in the
  -- tab, over what was there before, if the tab's storage can be used.
  pub provision_signet_key-IsProvisioned :
      (json : Codec) (network : NetworkConfig) (w w' : World) (r : ProvisionResult)
      → provision_signet_key host provider json network w ≡ (ok r, w')
      → IsProvisioned json network w w' r
  unfolding provision_signet_key
  provision_signet_key-IsProvisioned json network w w' r x =
      elim (Bool-cases (is_empty network.bootstrap_group || length network.bootstrap_nodes == 0)) [
        | inl missing ↦ absurd (clash (simp missing at x))
        | inr there ↦
            let (made, u, made_eq, rest) =
              >>=-eq-ok (keygen_steps host provider) (finish_steps host provider json network) w r
                w' (simp there at x) in
            let (v, account, at_account, same, cells, stored) =
              finish_ok json network made.0 made.1 made.2 u w' r rest in
            (
              u,
              v,
              made.0,
              made.1,
              made.2,
              account,
              made_eq,
              keygen_steps-IsMade host provider w u made.0 made.1 made.2 made_eq,
              at_account,
              same,
              cells ∙ keygen_cells w u made made_eq,
              stored,
            )
      ]
    where
      clash : {f : Failure} → ◌≡◌ {A = Result ProvisionResult × World} (err f, w) (ok r, w') → ⊥
      clash y = cc y
