-- ===== src/Issuers/Trusted.antt =====
-- web/app/(console)/apps/[appId]/configuration/login-methods/page.tsx: what the page says of an
-- issuer is what the group's contract and the platform were told.
use signet_platform.Prelude.{
  ◌≡◌, refl, sym, subst, ◌⊎◌, inl, inr, Bool, false, Option, none, some, List, [], ◌∷◌, ◌++◌,
}
use signet_platform.Prelude.Text.{Str, codes, is_empty}
use signet_platform.Prelude.Space.{trim}
use signet_platform.Effects.Failure.{Failure, Result, ok, err}
use signet_platform.Effects.Json.{Json, with_members, arr, obj, items_of, end, field}
use signet_platform.Effects.World.{World, Exec, ◌>>◌, lift, pure}
use signet_platform.Effects.Laws.{try_catch_total}
use signet_platform.Types.Account.{User, NetworkConfig}
use signet_platform.Api.Query.{Urls}
use signet_platform.Api.AppEndpoints.{AppEndpoint, app_call, send}
use signet_platform.Abi.{GroupFunction, add_issuer, remove_issuer}
use signet_platform.Onchain.Body.{proof_fields}
use signet_platform.Api.Endpoints.{text_field}
use signet_platform.Onchain.Transport.{Transport}
use signet_platform.Onchain.Call.{Console, GroupCall, OnchainProof}
use signet_platform.Onchain.Call.Accepted.{
  IsAccepted, IsFailed, accepted-eq-ok, accepted-IsFailed, lift-with_members, lift-err,
  reread-with_members, reread-err,
}
use signet_platform.Credentials.{Context}
use signet_platform.Credentials.Told.{signed_in_context}
use signet_platform.Issuers.{
  Page, Dialog, issuer_call, proof_of, removal, remove_steps, remove, after_remove, removed_toast,
  addition, issuer_fields, add_steps, add, after_add, added_toast, client_ids, refresh_issuers,
}

module _ (c : Console) where
  -- A call of the group's contract, for the user.
  abbrev pub call_of_group :
      NetworkConfig → User → Option Str → Bool → GroupFunction → c.viem.Args → GroupCall c
  call_of_group network user group sponsored f args = record {
    network = network;
    user = user;
    group_address = group;
    function_name = f;
    args = args;
    sponsored = some sponsored;
  }

-- What the platform is asked, with the proof if there is one.
module _ (c : Console) (urls : Urls) (app_id : Str) where
  abbrev pub asks_removal : Str → Option OnchainProof → Exec Json
  asks_removal id proof = send c.host (
      app_call urls app_id (
        AppEndpoint.remove_issuer id (elim proof [ none ↦ none | some p ↦ some (proof_fields p) ])))

  abbrev pub asks_addition : Str → List Str → Option OnchainProof → Exec Json
  asks_addition issuer ids proof = send c.host (
      app_call urls app_id (
        AppEndpoint.save_issuer (
          text_field (codes "issuer") issuer (
            field (codes "client_ids") (arr (items_of ids)) (elim proof [
              | none ↦ end
              | some p ↦ field (codes "user_op") (obj (proof_fields p)) end
            ])))))

module _ (c : Console) (urls : Urls) (transport : Transport) (app_id : Str) where
  -- How a removal ends, from the tab `w` and the page `page` on.
  abbrev pub IsRemoved : GroupCall c → Str → World → Page → World × Page → Type 0
  IsRemoved g id w page (w', page') =
      (page'.busy ≡ none)
      × (((answer : Json) × (page'.toasts ≡ page.toasts ++ removed_toast answer ∷ [])
            × (page'.remove_error ≡ none)
            × IsAccepted c transport g (asks_removal c urls app_id id) answer w)
          ⊎ ((e : Failure) × (page'.toasts ≡ page.toasts)
              × (page'.remove_error ≡ some e)
              × IsFailed c transport g (asks_removal c urls app_id id) e w))

  -- How an addition of an issuer with client IDs ends.
  abbrev pub IsAdded : GroupCall c → Str → List Str → World → Dialog → World × Dialog → Type 0
  IsAdded g issuer ids w d (w', d') =
      ((answer : Json) × (d'.toasts ≡ d.toasts ++ added_toast answer ∷ [])
        × (d'.open_now ≡ false)
        × (d'.issuer ≡ [])
        × (d'.client_ids_text ≡ [])
        × IsAccepted c transport g (asks_addition c urls app_id issuer ids) answer w)
      ⊎ ((e : Failure) × (d' ≡ record d { add_error = some e })
          × IsFailed c transport g (asks_addition c urls app_id issuer ids) e w)

module _ (c : Console) (urls : Urls) (issuer_args : Str → List Str → c.viem.Args)
    (hash_args : Str → c.viem.Args) (network : NetworkConfig) (user : User) (group : Option Str)
    (sponsored : Bool) (transport : Transport) (app_id : Str) (w : World) where
  abbrev context : Context
  context = signed_in_context network user group sponsored transport

  -- The removal of an issuer by a signed-in user ends with no issuer shown as being removed: either
  -- with one toast, after the transport has given a proof that the group's contract was called to
  -- remove this issuer, with the arguments made of its text, or that there is no group to call, and
  -- the platform has accepted the removal with this proof; or with the error of the call, of the
  -- platform or of an answer that cannot be read, and no toast.
  pub remove-IsTrusted :
      (id issuer : Str) (page : Page)
      → IsRemoved c urls transport app_id
          (call_of_group c network user group sponsored remove_issuer (hash_args issuer))
          id
          w
          page
          (remove c urls issuer_args hash_args app_id
            (signed_in_context network user group sponsored transport)
            id
            issuer
            (w, page))
  unfolding remove remove_steps proof_of refresh_issuers removal
  remove-IsTrusted id issuer page =
      by_result (remove_steps c urls issuer_args hash_args app_id context id issuer w) refl
    where
      g : GroupCall c
      g = issuer_call c context network user remove_issuer (hash_args issuer)

      last : Json → Exec Json
      last result = refresh_issuers c.host urls app_id >> lift (with_members result)

      refreshed : (u : World) → (x : Unit {0}) × ((refresh_issuers c.host urls app_id u).0 ≡ ok x)
      refreshed u =
          try_catch_total (send c.host (app_call urls app_id AppEndpoint.issuers) >> pure tt) tt u

      by_result :
          (r : Result Json × World)
          → remove_steps c urls issuer_args hash_args app_id context id issuer w ≡ r
          → IsRemoved c urls transport app_id g id w page (after_remove page r)
      by_result (err e, v) h = (
        refl,
        inr (
          e,
          refl,
          refl,
          accepted-IsFailed c transport g (asks_removal c urls app_id id) last w v e
              (λ j u. reread-err (refresh_issuers c.host urls app_id) j u v e (refreshed u)) h,
        ),
      )
      by_result (ok answer, w') h =
          let (result, u, accepted, rest) =
            accepted-eq-ok c transport g (asks_removal c urls app_id id) last w w' answer h in
          let same =
            reread-with_members (refresh_issuers c.host urls app_id) result answer u w' rest in
          (
            refl,
            inl (
              answer,
              refl,
              refl,
              subst (λ j. IsAccepted c transport g (asks_removal c urls app_id id) j w) same
                  accepted,
            ),
          )

  -- The dialog adds what was typed, without white space at its ends: for a signed-in user it ends
  -- either closed and empty, with one toast, after the transport has given a proof that the group's
  -- contract was called to trust an issuer, with the arguments made of this issuer and these client
  -- IDs, or that there is no group to call, and the platform has accepted the same issuer and
  -- client IDs with this proof; or it keeps what was typed and shows the error of the call, of the
  -- platform or of an answer that cannot be read, with no toast.
  pub add-IsTrusted :
      (d : Dialog)
      → is_empty (trim d.issuer) ≡ false
      → IsAdded c urls transport app_id
          (call_of_group c network user group sponsored add_issuer
            (issuer_args (trim d.issuer) (client_ids d.client_ids_text)))
          (trim d.issuer)
          (client_ids d.client_ids_text)
          w
          d
          (add c urls issuer_args hash_args app_id
            (signed_in_context network user group sponsored transport)
            (w, d))
  unfolding add add_steps proof_of addition issuer_fields
  add-IsTrusted d typed =
      subst (IsAdded c urls transport app_id g issuer ids w d) (sym clicked)
        (by_result (add_steps c urls issuer_args hash_args app_id context issuer ids w) refl)
    where
      issuer : Str
      issuer = trim d.issuer

      ids : List Str
      ids = client_ids d.client_ids_text

      g : GroupCall c
      g = issuer_call c context network user add_issuer (issuer_args issuer ids)

      clicked :
          add c urls issuer_args hash_args app_id context (w, d)
          ≡ after_add d (add_steps c urls issuer_args hash_args app_id context issuer ids w)
      clicked = rw (typed, add) refl

      by_result :
          (r : Result Json × World)
          → add_steps c urls issuer_args hash_args app_id context issuer ids w ≡ r
          → IsAdded c urls transport app_id g issuer ids w d (after_add d r)
      by_result (err e, v) h = inr (
        e,
        refl,
        accepted-IsFailed c transport g (asks_addition c urls app_id issuer ids)
            (λ j. lift (with_members j)) w v e (λ j u. lift-err j u v e) h,
      )
      by_result (ok answer, w') h =
          let (result, u, accepted, rest) =
            accepted-eq-ok c transport g (asks_addition c urls app_id issuer ids)
              (λ j. lift (with_members j)) w w' answer h in
          let same = lift-with_members result answer u w' rest in
          inl (
            answer,
            refl,
            refl,
            refl,
            refl,
            subst (λ j. IsAccepted c transport g (asks_addition c urls app_id issuer ids) j w) same
                accepted,
          )
