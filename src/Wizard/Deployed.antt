-- ===== src/Wizard/Deployed.antt =====
-- web/app/(console)/apps/new/page.tsx: what a deployment that ends without an error has done.
use signet_platform.Prelude.{
  ◌≡◌, [], ◌∙◌, ap, sym, refl, ◌⊎◌, inl, inr, Option, none, some, map, Option-cases,
}
use signet_platform.Prelude.Text.{Str, codes, truthy, with_prefix}
use signet_platform.Types.Account.{User, NetworkConfig, Organization}
use signet_platform.Types.GroupView.{App}
use signet_platform.Effects.Failure.{Failure, Result, ok, err, returned}
use signet_platform.Effects.Json.{Json, Fields, items_of, num, obj, arr, end, field}
use signet_platform.Effects.Stages.{DeployStage, UserOpStage}
use signet_platform.Effects.World.{World, called, await, emit, deploy_stage}
use signet_platform.Effects.Laws.{>>=-eq-ok, returned_first, pure-eq-ok}
use signet_platform.Api.Query.{Urls}
use signet_platform.Api.AppEndpoints.{AppEndpoint, app_call, send}
use signet_platform.Prelude.Space.{trim}
use signet_platform.Api.Endpoints.{OrgEndpoint, org_call, text_field}
use signet_platform.Onchain.Body.{user_op_fields}
use signet_platform.UserOp.Wire.{SignedUserOp}
use signet_platform.Onchain.Call.{
  Console, DeployRequest, SignCallRequest, sign_create_group, sign_call,
}
use signet_platform.Onchain.Call.Laws.{IsSigned, sign_call-IsSigned}
use signet_platform.Wizard.Deploy.{
  Draft, Deployment, issuer_payload, app_fields, at_stage, create_app, give_group, group_given,
  deploy_steps, deploy_fields, create_request, after_deploy, deploy,
}

module _ (c : Console) where
  abbrev pub factory_call : DeployRequest → Str → Str → SignCallRequest
  factory_call r factory data_text = record {
    network = r.network;
    user = r.user;
    dest = factory;
    call_data = data_text;
    sponsored = r.sponsored;
  }

  -- The operation calls the factory for the group that was asked for, and is signed with an
  -- unexpired session of the tab.
  abbrev pub CreatesGroup : DeployRequest → World → World → SignedUserOp → Type 0
  CreatesGroup r v u op =
      (factory data_text : Str) × (truthy (some r.network.factory_address) ≡ some factory)
      × (c.viem.encode_create r.nodes r.threshold r.removal_delay_seconds r.issuers
            (map with_prefix r.auth_keys)
          ≡ returned data_text)
      × IsSigned c (factory_call r factory data_text)
          (await (called (codes "encodeFunctionData")) v).1 u op

  sign_create_group-CreatesGroup :
      (r : DeployRequest) (v u : World) (op : SignedUserOp)
      → sign_create_group c r v ≡ (ok op, u)
      → CreatesGroup r v u op
  unfolding sign_create_group
  sign_create_group-CreatesGroup r v u op h =
      elim (Option-cases (truthy (some r.network.factory_address))) [
        | inl missing ↦ absurd (cc (simp (missing, sign_create_group) at h))
        | inr (factory, there) ↦
            let (data_text, encoded, rest) =
              returned_first
                (c.viem.encode_create r.nodes r.threshold r.removal_delay_seconds r.issuers
                  (map with_prefix r.auth_keys))
                (λ t. sign_call c (factory_call r factory t))
                (await (called (codes "encodeFunctionData")) v).1 op u
                (simp (there, sign_create_group) at h) in
            (
              factory,
              data_text,
              there,
              encoded,
              sign_call-IsSigned c (factory_call r factory data_text) _ u op rest,
            )
      ]

module _ (c : Console) (urls : Urls) (as_app : Json → App) where
  -- The deployment that the draft asks for.
  abbrev pub asked_for : NetworkConfig → User → Draft → DeployRequest
  asked_for network user d = record {
    network = network;
    user = user;
    nodes = d.selected;
    threshold = d.threshold;
    removal_delay_seconds = d.removal_delay;
    issuers = issuer_payload d;
    auth_keys = [];
    sponsored = some network.sponsor_group_creation;
  }

  -- What the platform is told of the new group.
  abbrev pub told_of : Draft → SignedUserOp → Fields
  told_of d op = field (codes "nodes") (arr (items_of d.selected)) (
      field (codes "threshold") (num d.threshold) (
        field (codes "removal_delay_seconds") (num d.removal_delay)
          (field (codes "user_op") (obj (user_op_fields op)) end)))

  -- The platform has created the app, under its trimmed name and for the chain of the network.
  abbrev pub HasApp : Organization → NetworkConfig → Draft → App → World → World → Type 0
  HasApp org network d app w v =
      (answer : Json) × (send c.host
          (org_call org.id (
            OrgEndpoint.create_app (
              text_field (codes "name") (trim d.name) (
                text_field (codes "description") d.description (
                  text_field (codes "environment") (codes "development")
                    (field (codes "chain_id") (num network.chain_id) end))))))
          (emit (deploy_stage (DeployStage.userop UserOpStage.building)) w).1
        ≡ (ok answer, v))
      × (app ≡ as_app answer)

  create_app-HasApp :
      (org : Organization) (network : NetworkConfig) (d : Draft) (app : App) (w v : World)
      → create_app c urls as_app org network d w ≡ (ok app, v)
      → HasApp org network d app w v
  unfolding create_app app_fields
  create_app-HasApp org network d app w v h =
      let (answer, x, p, rest) = >>=-eq-ok (send c.host _) _ _ app v h in
      let (same, left) = pure-eq-ok (as_app answer) app x v rest in
      (answer, p ∙ ap (λ t. (ok answer, t)) (sym left), sym same)

  -- The platform has linked the given group, or has deployed the group that an operation creates.
  abbrev pub HasGroup : NetworkConfig → User → Draft → Option Str → App → World → Type 0
  HasGroup network user d (some address) app v =
      (answer : Json) × (x : World) × (send c.host
          (app_call urls app.id (AppEndpoint.attach_group address none))
          (emit (deploy_stage DeployStage.attaching) v).1
        ≡ (ok answer, x))
  HasGroup network user d none app v =
      (op : SignedUserOp) × (answer : Json) × (u x : World) × CreatesGroup c
        (asked_for network user d) v u op
      × (send c.host (app_call urls app.id (AppEndpoint.deploy_group (told_of d op)))
            (at_stage c urls as_app UserOpStage.submitting u).1
          ≡ (ok answer, x))

  give_group-HasGroup :
      (network : NetworkConfig) (user : User) (d : Draft) (given : Option Str) (app : App)
      (v w : World)
      → give_group c urls as_app network user d given app v ≡ (ok tt, w)
      → HasGroup network user d given app v
  unfolding give_group create_request deploy_fields
  give_group-HasGroup network user d (some address) app v w h =
      let (answer, x, p, rest) = >>=-eq-ok (send c.host _) _ _ tt w h in (answer, x, p)
  give_group-HasGroup network user d none app v w h =
      let (op, u, p, rest) =
        >>=-eq-ok (sign_create_group c (create_request network user d)) _ v tt w h in
      let (answer, x, q, rest₂) = >>=-eq-ok (send c.host _) _ _ tt w rest in
      (
        op,
        answer,
        u,
        x,
        sign_create_group-CreatesGroup c (create_request network user d) v u op p,
        q,
      )

  abbrev pub IsDeployed : Organization → NetworkConfig → User → Draft → Option Str → World → Type 0
  IsDeployed org network user d existing w =
      (app : App) × (v : World) × HasApp org network d app w v
      × HasGroup network user d (elim existing [ none ↦ none | some g ↦ truthy (some (trim g)) ])
          app v

  deploy_steps-IsDeployed :
      (org : Organization) (network : NetworkConfig) (user : User) (d : Draft)
      (existing : Option Str) (w v : World)
      → deploy_steps c urls as_app org network user d existing w ≡ (ok tt, v)
      → IsDeployed org network user d existing w
  unfolding deploy_steps
  deploy_steps-IsDeployed org network user d existing w v h =
      let given = group_given c urls as_app existing in
      let (app, u, p, rest) = >>=-eq-ok (create_app c urls as_app org network d) _ w tt v h in
      let (done, x, q, rest₂) =
        >>=-eq-ok (give_group c urls as_app network user d given app) _ u tt v rest in
      (
        app,
        u,
        create_app-HasApp org network d app w u p,
        give_group-HasGroup network user d given app u x q,
      )

  abbrev pub IsEnded :
      Organization → NetworkConfig → User → Draft → Option Str → World → World × Deployment → Type 0
  IsEnded org network user d existing w (w', page) =
      ((page.failure ≡ none)
        × (page.stage ≡ some (DeployStage.userop UserOpStage.done))
        × IsDeployed org network user d existing w)
      ⊎ ((page.stage ≡ none)
          × ((e : Failure) × (page.failure ≡ some e)
              × (deploy_steps c urls as_app org network user d existing w ≡ (err e, w'))))

  -- For a signed-in user with an organization, a deployment ends either with the error that its steps
  -- met and no stage shown, or as done: then the platform has created the app, under its trimmed
  -- name, and has linked the group that was given, or has accepted an operation that calls the
  -- factory for the selected nodes and the threshold of the draft, is handed over with them, and is
  -- signed with an unexpired session of the tab.
  pub deploy-IsEnded :
      (org : Organization) (network : NetworkConfig) (user : User) (d : Draft)
      (existing : Option Str) (w : World) (page : Deployment)
      → IsEnded org network user d existing w
          (deploy c urls as_app (some org) (some network) (some user) d existing (w, page))
  unfolding deploy
  deploy-IsEnded org network user d existing w page =
      after_deploy-IsEnded (deploy_steps c urls as_app org network user d existing w) refl
    where
      after_deploy-IsEnded :
          (r : Result (Unit {0}) × World)
          → deploy_steps c urls as_app org network user d existing w ≡ r
          → IsEnded org network user d existing w (after_deploy r)
      after_deploy-IsEnded (ok u, v) h =
          inl (refl, refl, deploy_steps-IsDeployed org network user d existing w v h)
      after_deploy-IsEnded (err e, v) h = inr (refl, (e, refl, h))
