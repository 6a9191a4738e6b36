-- ===== src/Provision/Made.antt =====
-- web/lib/provision.ts: what was asked for a key that a provisioning made.
use signet_platform.Prelude.{◌≡◌, refl, sym, ap, subst, ◌∙◌, Bool, true, false, some, if◌then◌else◌}
use signet_platform.Prelude.Text.{codes, is_empty}
use signet_platform.Types.Account.{NodeCertificate}
use signet_platform.Effects.Failure.{Failure, ok, returned}
use signet_platform.Effects.Json.{Json, str, obj, end, field}
use signet_platform.Effects.World.{World, pure, raise}
use signet_platform.Effects.Stages.{authenticating}
use signet_platform.Effects.Laws.{>>=-eq-ok, returned_first, pure-eq-ok}
use signet_platform.Effects.Host.{Host, Response, is_ok, fetch}
use signet_platform.Api.{request}
use signet_platform.SessionKey.{SessionKeypair}
use signet_platform.Provision.Requests.{Provider, GeneratedKey, auth_fetch, keygen_request}
use signet_platform.Provision.Steps.{certify, authenticate, generate, keygen_steps, at}

module _ (host : Host) (provider : Provider) where
  -- The platform gave a certificate for the new session key, a node accepted it, and the operators
  -- gave a key for it, which has a public key.
  abbrev pub IsMade : SessionKeypair → NodeCertificate → GeneratedKey → Type 0
  IsMade keypair cert key =
      (provider.new_keypair ≡ returned keypair)
      × ((answer : Json) × (t t' : World) × (request host (codes "POST")
              (codes "/v1/auth/node-certificate")
              (some (obj (field (codes "session_pub") (str keypair.public_key_hex) end))) t
            ≡ (ok answer, t'))
          × (cert ≡ provider.as_certificate answer))
      × ((res : Response) × (t t' : World) × (fetch host
              (auth_fetch host cert keypair.public_key_hex) t
            ≡ (ok res, t'))
          × (is_ok res ≡ true))
      × (provider.keygen (keygen_request host cert keypair) ≡ returned key)
      × (is_empty key.group_public_key ≡ false)

  made_by_certificate :
      (keypair : SessionKeypair) (cert : NodeCertificate) (t t' : World)
      → certify host provider keypair t ≡ (ok cert, t')
      → (answer : Json) × (u u' : World) × (request host
            (codes "POST")
            (codes "/v1/auth/node-certificate")
            (some (obj (field (codes "session_pub") (str keypair.public_key_hex) end)))
            u
          ≡ (ok answer, u'))
        × (cert ≡ provider.as_certificate answer)
  unfolding certify
  made_by_certificate keypair cert t t' h =
      let (answer, u', p, rest) = >>=-eq-ok (request host _ _ _) _ _ cert t' h in
      (answer, _, u', p, sym (pure-eq-ok _ cert u' t' rest).0)

  accepted_by_node :
      (keypair : SessionKeypair) (cert : NodeCertificate) (t t' : World)
      → authenticate host provider keypair cert t ≡ (ok tt, t')
      → (res : Response) × (u u' : World) × (fetch host
            (auth_fetch host cert keypair.public_key_hex)
            u
          ≡ (ok res, u'))
        × (is_ok res ≡ true)
  unfolding authenticate
  accepted_by_node keypair cert t t' h =
      let (res, u', p, rest) =
        >>=-eq-ok (fetch host (auth_fetch host cert keypair.public_key_hex)) _
          (at authenticating t).1 tt t' h in
      (res, (at authenticating t).1, u', p, accepted (is_ok res) _ u' t' rest)
    where
      accepted :
          (b : Bool) (e : Failure) (x y : World)
          → (if b then pure tt else raise e) x ≡ (ok tt, y)
          → b ≡ true
      accepted true e x y g = refl
      accepted false e x y g = cc g

  given_by_operators :
      (keypair : SessionKeypair) (cert : NodeCertificate) (key : GeneratedKey) (t t' : World)
      → generate host provider keypair cert t ≡ (ok key, t')
      → (provider.keygen (keygen_request host cert keypair) ≡ returned key)
        × (is_empty key.group_public_key ≡ false)
  unfolding generate
  given_by_operators keypair cert key t t' h =
      let (given, given_eq, rest) =
        returned_first (provider.keygen (keygen_request host cert keypair)) _ _ key t' h in
      let (there, same) = public given (is_empty given.group_public_key) _ _ rest refl in
      (given_eq ∙ ap returned same, subst (λ k. is_empty k.group_public_key ≡ false) same there)
    where
      public :
          (given : GeneratedKey) (b : Bool) (e : Failure) (x : World)
          → (if b then raise e else pure given) x ≡ (ok key, t')
          → is_empty given.group_public_key ≡ b
          → (is_empty given.group_public_key ≡ false) × (given ≡ key)
      public given true e x g same = cc g
      public given false e x g same = (same, cc g)

  pub keygen_steps-IsMade :
      (w u : World) (keypair : SessionKeypair) (cert : NodeCertificate) (key : GeneratedKey)
      → keygen_steps host provider w ≡ (ok (keypair, cert, key), u)
      → IsMade keypair cert key
  unfolding keygen_steps
  keygen_steps-IsMade w u keypair cert key h =
      let made : SessionKeypair × NodeCertificate × GeneratedKey = (keypair, cert, key) in
      let (k, k_eq, rest) = returned_first provider.new_keypair _ _ made u h in
      let (d, t, p, rest₂) = >>=-eq-ok (certify host provider k) _ _ made u rest in
      let (done, t₂, q, rest₃) = >>=-eq-ok (authenticate host provider k d) _ t made u rest₂ in
      let (g, t₃, r, rest₄) = >>=-eq-ok (generate host provider k d) _ t₂ made u rest₃ in
      let (given, there) = given_by_operators k d g t₂ t₃ r in
      subst (λ m. IsMade m.0 m.1 m.2) (pure-eq-ok (k, d, g) made t₃ u rest₄).0
        (k_eq, made_by_certificate k d _ t p, accepted_by_node k d t t₂ q, given, there)
