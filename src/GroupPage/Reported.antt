-- ===== src/GroupPage/Reported.antt =====
-- web/app/(console)/apps/[appId]/group/page.tsx: when a call of the group is reported as confirmed,
-- and when as failed.
use signet_platform.Prelude.{
  ◌≡◌, refl, ap, sym, subst, ◌∙◌, ◌⊎◌, inl, inr, Option, none, some, [], ◌∷◌, ◌++◌,
}
use signet_platform.Prelude.Text.{Str, codes, truthy}
use signet_platform.Types.Account.{User, NetworkConfig}
use signet_platform.Types.GroupView.{App}
use signet_platform.Effects.Failure.{Failure, Result, ok, err, or_throw, no_group}
use signet_platform.Effects.Json.{Json}
use signet_platform.Effects.World.{World, ◌>>=◌, ◌>>◌, pure, lift}
use signet_platform.Effects.Laws.{>>=-eq-ok, >>=-eq-err, try_catch_total, present_first}
use signet_platform.Api.Query.{Urls}
use signet_platform.Api.AppEndpoints.{AppEndpoint, app_call, send}
use signet_platform.Abi.{GroupFunction, function_name}
use signet_platform.Onchain.Transport.{Transport, userop, wallet, nothing}
use signet_platform.Onchain.Call.{Console, GroupCall, OnchainProof, submit_group_call}
use signet_platform.Onchain.Call.Proof.{IsProof, submit_group_call-IsProof}
use signet_platform.Onchain.Body.{proof_fields}
use signet_platform.GroupPage.Calls.{
  success, error, Page, refresh_group, request_of, call_steps, after_call, call,
}

-- A group that is there is called with a proof.
gives_proof :
    (c : Console) (transport : Transport) (group : Str) (g : GroupCall c) (w v : World)
    → IsProof c (some group) transport g w v none
    → ⊥
gives_proof c (nothing reason) group g w v h = h
gives_proof c (wallet from) group g w v (provider, hash, there, p, sent) = cc p
gives_proof c (userop from) group g w v (op, data_text, encoded, p, signed) = cc p

module _ (c : Console) (urls : Urls) (message_of : Failure → Str) where
  open c use {host, viem}
  open viem use {Args}

  -- The proof that the transport gave for the call, from the tab `w` on, was accepted by the
  -- platform.
  abbrev pub IsAccepted : Str → Transport → GroupCall c → World → Type 0
  IsAccepted app_id transport g w =
      (proof : OnchainProof) × (v u : World) × (answer : Json) × (submit_group_call c transport g w
        ≡ (ok (some proof), v))
      × IsProof c (truthy g.group_address) transport g w v (some proof)
      × (send host
            (app_call urls app_id
              (AppEndpoint.execute_group_call (proof_fields proof) (function_name g.function_name)))
            v
          ≡ (ok answer, u))

  call_steps-IsAccepted :
      (app_id : Str) (transport : Transport) (g : GroupCall c) (w w' : World)
      → call_steps c urls message_of app_id transport g w ≡ (ok tt, w')
      → IsAccepted app_id transport g w
  unfolding call_steps
  call_steps-IsAccepted app_id transport g w w' h =
      let (submitted, v, p, rest) = >>=-eq-ok (submit_group_call c transport g) _ w tt w' h in
      let (proof, there, rest₂) = present_first no_group submitted _ v tt w' rest in
      let (answer, u, q, rest₃) = >>=-eq-ok (send host _) _ v tt w' rest₂ in
      let given = p ∙ ap (λ s. (ok s, v)) there in
      (
        proof,
        v,
        u,
        answer,
        given,
        submit_group_call-IsProof c transport g w v (some proof) given,
        q,
      )

  -- The call failed with `e`, or the platform refused the proof that it returned with `e`.
  abbrev pub IsRefused : Str → Transport → GroupCall c → Failure → World → Type 0
  IsRefused app_id transport g e w =
      ((v : World) × (submit_group_call c transport g w ≡ (err e, v)))
      ⊎ ((proof : OnchainProof) × (v u : World) × (submit_group_call c transport g w
            ≡ (ok (some proof), v))
          × (send host
                (app_call urls app_id (
                  AppEndpoint.execute_group_call (proof_fields proof)
                    (function_name g.function_name)))
                v
              ≡ (err e, u)))

  call_steps-IsRefused :
      (app_id group : Str) (transport : Transport) (g : GroupCall c) (w w' : World) (e : Failure)
      → truthy g.group_address ≡ some group
      → call_steps c urls message_of app_id transport g w ≡ (err e, w')
      → IsRefused app_id transport g e w
  unfolding call_steps refresh_group
  call_steps-IsRefused app_id group transport g w w' e there h =
      elim (>>=-eq-err (submit_group_call c transport g) _ w e w' h) [
        | inl p ↦ inl (w', p)
        | inr (submitted, v, p, rest) ↦ proved submitted v p rest
      ]
    where
      handed :
          (proof : OnchainProof) (v : World)
          → submit_group_call c transport g w ≡ (ok (some proof), v)
          → (send host (
                  app_call urls app_id (
                    AppEndpoint.execute_group_call
                      (proof_fields proof)
                      (function_name g.function_name)))
                >> refresh_group c urls message_of app_id)
              v
            ≡ (err e, w')
          → IsRefused app_id transport g e w
      handed proof v p rest = elim (>>=-eq-err (send host _) _ v e w' rest) [
        | inl q ↦ inr (proof, v, w', p, q)
        | inr (answer, u, q, again) ↦
            let (x, returns) =
              try_catch_total (send host (app_call urls app_id AppEndpoint.group) >> pure tt) tt
                u in
            absurd (clash (sym returns ∙ ap (λ (r : Result (Unit {0}) × World). r.0) again))
      ]
        where
          clash : {x : Unit {0}} → ◌≡◌ {A = Result (Unit {0})} (ok x) (err e) → ⊥
          clash q = cc q

      proved :
          (submitted : Option OnchainProof) (v : World)
          → submit_group_call c transport g w ≡ (ok submitted, v)
          → (lift (or_throw no_group submitted) >>= λ proof.
                send host (
                  app_call urls app_id (
                    AppEndpoint.execute_group_call
                      (proof_fields proof)
                      (function_name g.function_name)))
                >> refresh_group c urls message_of app_id)
              v
            ≡ (err e, w')
          → IsRefused app_id transport g e w
      proved (some proof) v p rest = handed proof v p rest
      proved none v p rest = absurd (
          gives_proof c transport group g w v (
            subst (λ o. IsProof c o transport g w v none) there
              (submit_group_call-IsProof c transport g w v none p)))

  -- What the page is after a call: no action is under way, and one toast tells how it ended.
  abbrev pub IsReported : Str → Str → Transport → GroupCall c → World → Page → World × Page → Type 0
  IsReported app_id label transport g w page (w', page') =
      (page'.pending_action ≡ none)
      × (((page'.toasts ≡ page.toasts ++ success (label ++ codes " confirmed") ∷ [])
            × IsAccepted app_id transport g w)
          ⊎ ((e : Failure) × (page'.toasts
                ≡ page.toasts ++ error (label ++ codes " failed") (message_of e) ∷ [])
              × IsRefused app_id transport g e w))

  -- For a signed-in user and an app with a group, every call ends with no action under way and one
  -- toast: it is reported as confirmed only if the platform accepted the proof that the transport
  -- gave for this call, and otherwise it is reported as failed, with the message of the
  -- error with which the transport or the platform refused.
  pub call-IsReported :
      (network : NetworkConfig) (user : User) (app : App) (group app_id label : Str)
      (transport : Transport) (f : GroupFunction) (args : Args) (w : World) (page : Page)
      → truthy app.group_address ≡ some group
      → IsReported app_id label transport
          (request_of c urls message_of network user app f args)
          w
          page
          (call c urls message_of
            (some network)
            (some user)
            (some app)
            app_id
            transport
            label
            f
            args
            (w, page))
  unfolding call call_steps
  call-IsReported network user app group app_id label transport f args w page h =
      subst (IsReported app_id label transport g w page) (sym called)
        (after_call-IsReported (call_steps c urls message_of app_id transport g w) refl)
    where
      g : GroupCall c
      g = request_of c urls message_of network user app f args

      called :
          call c urls message_of
            (some network)
            (some user)
            (some app)
            app_id
            transport
            label
            f
            args
            (w, page)
          ≡ after_call c urls message_of label page
              (call_steps c urls message_of app_id transport g w)
      called = rw (h, call) refl

      after_call-IsReported :
          (r : Result (Unit {0}) × World)
          → call_steps c urls message_of app_id transport g w ≡ r
          → IsReported app_id label transport g w page (after_call c urls message_of label page r)
      after_call-IsReported (ok u, v) e =
          (refl, inl (refl, call_steps-IsAccepted app_id transport g w v e))
      after_call-IsReported (err x, v) e =
          (refl, inr (x, refl, call_steps-IsRefused app_id group transport g w v x h e))
