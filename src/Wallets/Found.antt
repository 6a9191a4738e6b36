-- ===== src/Wallets/Found.antt =====
-- web/app/(console)/apps/[appId]/wallets/page.tsx: which keys a synchronization takes.
use signet_platform.Prelude.{
  ◌≡◌, refl, ap, subst, sym, ◌∙◌, ◌⊎◌, inl, inr, true, false, Option, none, some, Bool-cases,
}
use signet_platform.Prelude.Text.{Str, codes, truthy, is_empty}
use signet_platform.Prelude.Space.{trim}
use signet_platform.Effects.Failure.{Result, ok}
use signet_platform.Effects.Json.{Json, bool, null, num, str, arr, obj, nil, end, get_field}
use signet_platform.Effects.World.{World}
use signet_platform.Effects.Laws.{>>=-eq-ok, present_first, pure-eq-ok}
use signet_platform.Effects.Host.{Host}
use signet_platform.Api.Endpoints.{text_field}
use signet_platform.Api.Uploads.{node_proxy}
use signet_platform.SessionKey.{Codec, SigningSession, load_signing_session}
use signet_platform.SessionKey.Expiry.{load_unchanged}
use signet_platform.Wallets.Given.{keys_member, only_array}
use signet_platform.Wallets.{pasted, asked, inventory}

-- The keys of a node's answer: the answer itself if it is a list, and otherwise no keys.
abbrev pub IsListed : Json → Json → Type 0
IsListed (arr items) keys = keys ≡ arr items
IsListed _ keys = keys ≡ arr nil

-- The keys of what was pasted: the list itself, or the member `keys` of an object, or no keys.
abbrev pub IsMember : Option Json → Json → Type 0
IsMember none keys = keys ≡ arr nil
IsMember (some null) keys = keys ≡ arr nil
IsMember (some j) keys = keys ≡ j

abbrev pub IsPasted : Json → Json → Type 0
IsPasted null keys = ⊥
IsPasted (arr items) keys = keys ≡ arr items
IsPasted (obj fields) keys = IsMember (get_field (codes "keys") fields) keys
IsPasted _ keys = keys ≡ arr nil

only_array-IsListed : (result : Json) → IsListed result (only_array result)
unfolding only_array
only_array-IsListed (arr items) = refl
only_array-IsListed null = refl
only_array-IsListed (bool b) = refl
only_array-IsListed (num n) = refl
only_array-IsListed (str t) = refl
only_array-IsListed (obj fields) = refl

keys_member-IsPasted : (parsed keys : Json) → keys_member parsed ≡ ok keys → IsPasted parsed keys
unfolding keys_member
keys_member-IsPasted null keys h = cc h
keys_member-IsPasted (arr items) keys h = cc h
keys_member-IsPasted (obj fields) keys h = by_member (get_field (codes "keys") fields) h
  where
    by_member :
        (o : Option Json)
        → elim o [
          | none ↦ ok (arr nil)
          | some j ↦ elim j [ null ↦ ok (arr nil) | other ↦ ok other ]
        ]
          ≡ ok keys
        → IsMember o keys
    by_member none g = cc g
    by_member (some null) g = cc g
    by_member (some (bool b)) g = cc g
    by_member (some (num n)) g = cc g
    by_member (some (str t)) g = cc g
    by_member (some (arr items)) g = cc g
    by_member (some (obj more)) g = cc g
keys_member-IsPasted (bool b) keys h = cc h
keys_member-IsPasted (num n) keys h = cc h
keys_member-IsPasted (str t) keys h = cc h

module _ (host : Host) (json : Codec) where
  -- The keys `keys`, found in the tab `w`: in the text, if there is one, and otherwise in the answer of
  -- the node at the address, which is asked for those of the group.
  abbrev pub IsFound : Str → Option Str → Option Str → World → Json → World → Type 0
  IsFound raw url group w keys v =
      ((is_empty (trim raw) ≡ false)
        × ((parsed : Json) × (host.parse_json raw ≡ some parsed) × IsPasted parsed keys)
        × (v ≡ w))
      ⊎ ((is_empty (trim raw) ≡ true)
          × ((u g : Str) × (s : SigningSession) × (result : Json) × (truthy url ≡ some u)
              × (truthy group ≡ some g)
              × (load_signing_session json w ≡ (ok (some s), w))
              × (node_proxy host u (codes "/admin/keys")
                    (some (obj (text_field (codes "group_id") g end))) (codes "POST") w
                  ≡ (ok result, v))
              × IsListed result keys))

  pasted-IsFound :
      (raw : Str) (w v : World) (keys : Json)
      → pasted host json raw w ≡ (ok keys, v)
      → ((parsed : Json) × (host.parse_json raw ≡ some parsed) × IsPasted parsed keys) × (v ≡ w)
  unfolding pasted
  pasted-IsFound raw w v keys h =
      let (parsed, there, rest) = present_first _ (host.parse_json raw) _ w keys v h in
      (
        (
          parsed,
          there,
          keys_member-IsPasted parsed keys (ap (λ (r : Result Json × World). r.0) rest),
        ),
        sym (ap (λ (r : Result Json × World). r.1) rest),
      )

  asked-IsFound :
      (url group : Option Str) (w v : World) (keys : Json)
      → asked host json url group w ≡ (ok keys, v)
      → (u g : Str) × (s : SigningSession) × (result : Json) × (url ≡ some u)
        × (group ≡ some g)
        × (load_signing_session json w ≡ (ok (some s), w))
        × (node_proxy host u
              (codes "/admin/keys")
              (some (obj (text_field (codes "group_id") g end)))
              (codes "POST")
              w
            ≡ (ok result, v))
        × IsListed result keys
  unfolding asked
  asked-IsFound none group w v keys h = cc h
  asked-IsFound (some u) none w v keys h = cc h
  asked-IsFound (some u) (some g) w v keys h =
      let (found, t, loaded, rest) = >>=-eq-ok (load_signing_session json) _ w keys v h in
      let (session, is_some, rest₂) = present_first _ found _ t keys v rest in
      let at_session : load_signing_session json w ≡ (ok (some session), t) =
        loaded ∙ ap (λ o. (ok o, t)) is_some in
      let same : t ≡ w = load_unchanged json w t session at_session in
      let (result, x, p, rest₃) =
        >>=-eq-ok
          (node_proxy host u (codes "/admin/keys")
            (some (obj (text_field (codes "group_id") g end))) (codes "POST"))
          _ t keys v rest₂ in
      let (listed, left) = pure-eq-ok (only_array result) keys x v rest₃ in
      (
        u,
        g,
        session,
        result,
        refl,
        refl,
        at_session ∙ ap (λ y. (ok (some session), y)) same,
        ap
              (node_proxy host u (codes "/admin/keys")
                (some (obj (text_field (codes "group_id") g end))) (codes "POST"))
              (sym same)
            ∙ (p ∙ ap (λ y. (ok result, y)) (sym left)),
        subst (IsListed result) listed (only_array-IsListed result),
      )

  pub inventory-IsFound :
      (raw : Str) (url group : Option Str) (w v : World) (keys : Json)
      → inventory host json raw url group w ≡ (ok keys, v)
      → IsFound raw url group w keys v
  unfolding inventory
  inventory-IsFound raw url group w v keys h = elim (Bool-cases (is_empty (trim raw))) [
    | inl blank ↦
        inr
          (blank, asked-IsFound (truthy url) (truthy group) w v keys (simp (blank, inventory) at h))
    | inr typed ↦
        let (there, same) = pasted-IsFound raw w v keys (simp (typed, inventory) at h) in
        inl (typed, there, same)
  ]
