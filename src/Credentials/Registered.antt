-- ===== src/Credentials/Registered.antt =====
-- web/app/(console)/apps/[appId]/credentials/page.tsx: an authorization key is shown only when the
-- group and the platform have it.
use signet_platform.Prelude.{
  if◌then◌else◌, ◌≡◌, ◌∙◌, refl, sym, ap, ◌⊎◌, inl, inr, Bool, true, false, Option, none, some, [],
  ◌∷◌, ◌++◌, Bool-cases,
}
use signet_platform.Prelude.Text.{Str, codes, truthy, is_empty}
use signet_platform.Prelude.Hex.{bytes_to_hex}
use signet_platform.Types.Account.{User, NetworkConfig}
use signet_platform.Effects.Failure.{Failure, no_group, Result, ok, err}
use signet_platform.Effects.Json.{Json, obj, end, field}
use signet_platform.Effects.World.{World, Exec, pure}
use signet_platform.Effects.Laws.{>>=-eq-ok, >>=-eq-err}
use signet_platform.Api.Query.{Urls}
use signet_platform.Abi.{add_auth_key}
use signet_platform.Onchain.Body.{proof_fields}
use signet_platform.Api.Endpoints.{text_field}
use signet_platform.Api.AppEndpoints.{AppEndpoint, app_call, send}
use signet_platform.Onchain.Transport.{Transport, nothing, wallet, userop}
use signet_platform.Onchain.Call.{Console, GroupCall, OnchainProof}
use signet_platform.Onchain.Call.Accepted.{IsAccepted, IsRefused, accepted-eq-ok, accepted-eq-err}
use signet_platform.Credentials.{
  Context, KeyPair, recording, key_credential, register_key, create_auth_key,
}
use signet_platform.Credentials.Page.{Page, closed, titled, after_key, has_route, make_key}
use signet_platform.Credentials.Told.{signed_in_context}

-- Whether there is a transport.
abbrev pub routed : Transport → Bool
routed (nothing reason) = false
routed (wallet from) = true
routed (userop from) = true

has_route_lem : (transport : Transport) → has_route transport ≡ routed transport
has_route_lem (nothing reason) = refl
has_route_lem (wallet from) = refl
has_route_lem (userop from) = refl

module _ (c : Console) (urls : Urls) (arguments : Str → c.viem.Args) (network : NetworkConfig)
    (user : User) (group : Option Str) (sponsored : Bool) (transport : Transport) (app_id : Str)
    (w : World) where
  abbrev context : Context
  context = signed_in_context network user group sponsored transport

  -- The call of the group's contract with a public key.
  abbrev pub adds : Str → GroupCall c
  adds public_hex = record {
    network = network;
    user = user;
    group_address = group;
    function_name = add_auth_key;
    args = arguments public_hex;
    sponsored = some sponsored;
  }

  -- What the platform is asked to keep, with the proof if there is one.
  abbrev pub records : Str → Str → Option OnchainProof → Exec Json
  records label public_hex proof = send c.host (
      app_call urls app_id (
        AppEndpoint.create_credential (
          text_field (codes "kind") (codes "auth_key") (
            text_field (codes "label") label (
              text_field (codes "public_key") public_hex (elim proof [
                | none ↦ end
                | some p ↦ field (codes "user_op") (obj (proof_fields p)) end
              ]))))))

  -- There is no group, or the call or the platform refused.
  abbrev pub IsUnregistered : Str → Str → Option Str → Failure → Type 0
  IsUnregistered label public_hex none e = e ≡ no_group
  IsUnregistered label public_hex (some address) e =
      IsRefused c transport (adds public_hex) (records label public_hex) e w

  -- How the registration of a key with this label ends, from the page `page` on.
  abbrev pub IsAdded : Str → KeyPair → Page → World × Page → Type 0
  IsAdded label key page (w', page') =
      ((answer : Json) × (page' ≡ record page {
        key_dialog = record { open_now = false; label = []; error = none };
        revealed = some (record {
          title = if is_empty label then codes "Application key" else label;
          value = bytes_to_hex key.private_key;
        });
        toasts = page.toasts ++ (codes "Authorization key added to your group", none) ∷ [];
      })
        × IsAccepted c transport (adds (codes "0x" ++ bytes_to_hex key.public_key))
            (records label (codes "0x" ++ bytes_to_hex key.public_key)) answer w)
      ⊎ ((e : Failure) × (page'
            ≡ record page { key_dialog = record page.key_dialog { error = some e } })
          × IsUnregistered label (codes "0x" ++ bytes_to_hex key.public_key) (truthy group) e)

  registered :
      (label public_hex : Str) (o : Option Str) (v : World)
      → register_key c urls arguments app_id context o (some network) (some user) label public_hex w
        ≡ (ok tt, v)
      → (answer : Json) × IsAccepted c transport
          (adds public_hex)
          (records label public_hex)
          answer
          w
  unfolding register_key recording key_credential
  registered label public_hex none v h = cc h
  registered label public_hex (some address) v h =
      let (answer, u, accepted, rest) =
        accepted-eq-ok c transport (adds public_hex) (records label public_hex) (λ _. pure tt) w v
          tt h in
      (answer, accepted)

  unregistered :
      (label public_hex : Str) (o : Option Str) (v : World) (e : Failure)
      → register_key c urls arguments app_id context o (some network) (some user) label public_hex w
        ≡ (err e, v)
      → IsUnregistered label public_hex o e
  unfolding register_key recording key_credential
  unregistered label public_hex none v e h = cc h
  unregistered label public_hex (some address) v e h =
      elim (accepted-eq-err c transport (adds public_hex) (records label public_hex) (λ _. pure tt)
        w v e h) [ inl refused ↦ refused | inr (answer, u, accepted, never) ↦ absurd (cc never) ]

  added :
      (key : KeyPair) (page : Page) (r : Result Str × World)
      → create_auth_key c urls arguments app_id context page.key_dialog.label key w ≡ r
      → IsAdded page.key_dialog.label key page (after_key page r)
  unfolding create_auth_key
  added key page (err e, v) h =
      let public_hex = codes "0x" ++ bytes_to_hex key.public_key in
      elim (>>=-eq-err
        (register_key c urls arguments app_id context (truthy group) (some network) (some user)
          page.key_dialog.label public_hex)
        (λ _. pure (bytes_to_hex key.private_key)) w e v h) [
          | inl failed ↦
              inr (e, refl, unregistered page.key_dialog.label public_hex (truthy group) v e failed)
          | inr (u, t, done, never) ↦ absurd (cc never)
        ]
  added key page (ok value, w') h =
      let public_hex = codes "0x" ++ bytes_to_hex key.public_key in
      let (u, v, done, rest) =
        >>=-eq-ok
          (register_key c urls arguments app_id context (truthy group) (some network) (some user)
            page.key_dialog.label public_hex)
          (λ _. pure (bytes_to_hex key.private_key)) w value w' h in
      let (answer, accepted) = registered page.key_dialog.label public_hex (truthy group) v done in
      inl (answer, ap shown (sym (given rest)), accepted)
    where
      given :
          {v : World}
          → ◌≡◌ {A = Result Str × World} (ok (bytes_to_hex key.private_key), v) (ok value, w')
          → bytes_to_hex key.private_key ≡ value
      given q = cc q

      shown : Str → Page
      shown s = record page {
        key_dialog = closed;
        revealed = some (titled page.key_dialog.label (codes "Application key") s);
        toasts = page.toasts ++ (codes "Authorization key added to your group", none) ∷ [];
      }

  -- The dialog for an authorization key cannot be used without a transport. Otherwise it ends, for
  -- a signed-in user, either closed and empty, with the private key shown under its label and one
  -- toast, after the transport has given a proof that the group's contract was called to add a key,
  -- with the arguments made of the public key, and the platform has recorded the same key with this
  -- proof; or with neither, and an error: that there is no group, or the error of the call or of
  -- the platform.
  pub make_key-IsAdded :
      (key : KeyPair) (page : Page)
      → ((routed transport ≡ true)
          × IsAdded page.key_dialog.label key page (
              make_key c urls arguments app_id
                (signed_in_context network user group sponsored transport)
                key
                (w, page)))
        ⊎ ((routed transport ≡ false)
            × (make_key c urls arguments app_id
                  (signed_in_context network user group sponsored transport)
                  key
                  (w, page)
                ≡ (w, page)))
  unfolding make_key create_auth_key register_key
  make_key-IsAdded key page = elim (Bool-cases (routed transport)) [
    | inr off ↦ inr (off, rw (has_route_lem transport ∙ off, make_key) refl)
    | inl on ↦ inl (
      on,
      rw (has_route_lem transport ∙ on, make_key)
          (added key page
            (create_auth_key c urls arguments app_id context page.key_dialog.label key w) refl),
    )
  ]
