-- ===== src/Wallets/Asked.antt =====
-- web/app/(console)/apps/[appId]/wallets/page.tsx: what `setStatus` asks of a node and of the platform.
use signet_platform.Prelude.{◌≡◌, refl, ap, sym, ◌∙◌, ◌⊎◌, inl, inr, Option, none, some}
use signet_platform.Prelude.Text.{Str, codes}
use signet_platform.Types.GroupView.{GroupView}
use signet_platform.Effects.Failure.{Failure, ok, err, or_throw, no_node_endpoint, no_key_session}
use signet_platform.Effects.Json.{Json, null, str, obj, end, field}
use signet_platform.Effects.World.{World, Exec, lift, ◌>>=◌}
use signet_platform.Effects.Laws.{>>=-eq-ok, >>=-eq-err, present_first}
use signet_platform.Effects.Host.{Host}
use signet_platform.Api.Query.{Urls}
use signet_platform.Api.Endpoints.{text_field}
use signet_platform.Api.AppEndpoints.{AppEndpoint, app_call, send}
use signet_platform.Api.Uploads.{node_proxy}
use signet_platform.SessionKey.{Codec, SigningSession, load_signing_session}
use signet_platform.SessionKey.Expiry.{load_unchanged}
use signet_platform.Wallets.{
  Key, KeyState, enabled, disabled, update_call, state_text, state_toast, first_url, ask_nodes,
  state_path, state_body,
}

abbrev pub path_for : KeyState → Str
path_for enabled = codes "/v1/keys/enable"
path_for disabled = codes "/v1/keys/disable"

abbrev pub status_for : KeyState → Str
status_for enabled = codes "enabled"
status_for disabled = codes "disabled"

abbrev pub toast_for : KeyState → Str
toast_for enabled = codes "Key enabled"
toast_for disabled = codes "Key disabled"

module _ (host : Host) (json : Codec) where
  -- What a node of the group is asked, at its address.
  abbrev pub asks_node : GroupView → Str → Key → KeyState → Exec Json
  asks_node view url key state =
      node_proxy host url (path_for state)
        (some (
          obj (
            field (codes "group_id") (elim view.app.group_address [ none ↦ null | some a ↦ str a ])
              (text_field (codes "key_id") key.key_id (text_field (codes "curve") key.curve end)))))
        (codes "POST")

  -- A node of the group was asked to change the key's state, from a tab with a session, and accepted.
  abbrev pub HasAccepted : Option GroupView → Key → KeyState → Json → World → World → Type 0
  HasAccepted group key state answer w v =
      (view : GroupView) × (url : Str) × (s : SigningSession) × (group ≡ some view)
      × (first_url view.nodes ≡ some url)
      × (load_signing_session json w ≡ (ok (some s), w))
      × (asks_node view url key state w ≡ (ok answer, v))

  -- There is no node to ask, the tab has no session, or the node refused.
  abbrev pub HasRefused : Option GroupView → Key → KeyState → Failure → World → World → Type 0
  HasRefused none key state e w v = e ≡ no_node_endpoint
  HasRefused (some view) key state e w v =
      ((first_url view.nodes ≡ none) × (e ≡ no_node_endpoint))
      ⊎ ((load_signing_session json w ≡ (err e, v))
          ⊎ (((load_signing_session json w ≡ (ok none, v)) × (e ≡ no_key_session))
              ⊎ ((url : Str) × (first_url view.nodes ≡ some url)
                  × (asks_node view url key state w ≡ (err e, v)))))

  by_path :
      (view : GroupView) (url : Str) (key : Key) (state : KeyState) (w : World)
      → asks_node view url key state w
        ≡ node_proxy host url
            (state_path state)
            (some (state_body view.app.group_address key))
            (codes "POST")
            w
  unfolding state_path state_body
  by_path view url key enabled w = refl
  by_path view url key disabled w = refl

  pub ask_nodes-HasAccepted :
      (group : Option GroupView) (key : Key) (state : KeyState) (answer : Json) (w v : World)
      → ask_nodes host json group key state w ≡ (ok answer, v)
      → HasAccepted group key state answer w v
  unfolding ask_nodes
  ask_nodes-HasAccepted none key state answer w v h = cc h
  ask_nodes-HasAccepted (some view) key state answer w v h =
      let (url, there, rest) = present_first _ (first_url view.nodes) _ w answer v h in
      let (found, t, loaded, rest₂) = >>=-eq-ok (load_signing_session json) _ w answer v rest in
      let (session, is_some, rest₃) = present_first _ found _ t answer v rest₂ in
      let at_session : load_signing_session json w ≡ (ok (some session), t) =
        loaded ∙ ap (λ o. (ok o, t)) is_some in
      let same : t ≡ w = load_unchanged json w t session at_session in
      (
        view,
        url,
        session,
        refl,
        there,
        at_session ∙ ap (λ x. (ok (some session), x)) same,
        by_path view url key state w
            ∙ (ap
                  (node_proxy host url (state_path state)
                    (some (state_body view.app.group_address key)) (codes "POST"))
                  (sym same)
                ∙ rest₃),
      )

  -- Once the address is there.
  abbrev at_url : GroupView → Str → Key → KeyState → Exec Json
  at_url view url key state = load_signing_session json >>= λ found.
      lift (or_throw no_key_session found) >>= λ session.
      node_proxy host url (state_path state) (some (state_body view.app.group_address key))
        (codes "POST")

  refused_url :
      (view : GroupView) (url : Str) (key : Key) (state : KeyState) (e : Failure) (w v : World)
      → first_url view.nodes ≡ some url
      → at_url view url key state w ≡ (err e, v)
      → HasRefused (some view) key state e w v
  refused_url view url key state e w v there h =
      elim (>>=-eq-err (load_signing_session json) _ w e v h) [
        | inl p ↦ inr (inl p)
        | inr (found, t, loaded, rest) ↦ by_session found t loaded rest
      ]
    where
      by_session :
          (found : Option SigningSession) (t : World)
          → load_signing_session json w ≡ (ok found, t)
          → (lift (or_throw no_key_session found) >>= λ session.
                node_proxy host url
                  (state_path state)
                  (some (state_body view.app.group_address key))
                  (codes "POST"))
              t
            ≡ (err e, v)
          → HasRefused (some view) key state e w v
      by_session none t loaded rest =
          let same : t ≡ v = cc rest in
          inr (inr (inl (loaded ∙ ap (λ x. (ok none, x)) same, cc rest)))
      by_session (some s) t loaded rest =
          let same : t ≡ w = load_unchanged json w t s loaded in
          inr (
            inr (
              inr (
                url,
                there,
                by_path view url key state w
                    ∙ (ap
                          (node_proxy host url (state_path state)
                            (some (state_body view.app.group_address key)) (codes "POST"))
                          (sym same)
                        ∙ rest),
              )))

  pub ask_nodes-HasRefused :
      (group : Option GroupView) (key : Key) (state : KeyState) (e : Failure) (w v : World)
      → ask_nodes host json group key state w ≡ (err e, v)
      → HasRefused group key state e w v
  unfolding ask_nodes
  ask_nodes-HasRefused none key state e w v h = cc h
  ask_nodes-HasRefused (some view) key state e w v h =
      elim (>>=-eq-err (lift (or_throw no_node_endpoint (first_url view.nodes))) _ w e v h) [
        | inl p ↦ inl (no_url (first_url view.nodes) p)
        | inr (url, t, p, rest) ↦
            let (there, same) = some_url (first_url view.nodes) t p in
            refused_url view url key state e w v there
              (ap (at_url view url key state) (sym same) ∙ rest)
      ]
    where
      no_url :
          (o : Option Str)
          → lift (or_throw no_node_endpoint o) w ≡ (err e, v)
          → (o ≡ none) × (e ≡ no_node_endpoint)
      no_url none p = (refl, cc p)
      no_url (some url) p = cc p

      some_url :
          {url : Str} (o : Option Str) (t : World)
          → lift (or_throw no_node_endpoint o) w ≡ (ok url, t)
          → (o ≡ some url) × (t ≡ w)
      some_url none t p = cc p
      some_url (some url) t p = (cc p, cc p)

-- What the platform is asked to record.
module _ (host : Host) (urls : Urls) where
  abbrev pub asks_platform : Str → Key → KeyState → Exec Json
  asks_platform app_id key state = send host (
      app_call urls app_id (
        AppEndpoint.update_key key.curve key.key_id
          (text_field (codes "status") (status_for state) end)))

  pub by_status :
      (app_id : Str) (key : Key) (state : KeyState) (w : World)
      → asks_platform app_id key state w ≡ send host (update_call urls app_id key state) w
  unfolding state_text
  by_status app_id key enabled w = refl
  by_status app_id key disabled w = refl

pub by_toast : (state : KeyState) → state_toast state ≡ toast_for state
unfolding state_toast
by_toast enabled = refl
by_toast disabled = refl
