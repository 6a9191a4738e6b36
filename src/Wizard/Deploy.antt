-- ===== src/Wizard/Deploy.antt =====
-- web/app/(console)/apps/new/page.tsx: `deploy`, which creates the app and its signing group.
use signet_platform.Prelude.{ℕ, Option, none, some, List, [], ◌∷◌, ◌++◌, map, find}
use signet_platform.Prelude.Text.{Str, codes, truthy, ◌===◌}
use signet_platform.Prelude.Space.{trim}
use signet_platform.Prelude.Commas.{comma_list}
use signet_platform.Types.Account.{User, NetworkConfig, Organization}
use signet_platform.Types.GroupView.{App}
use signet_platform.Effects.Failure.{Failure, Result, ok, err}
use signet_platform.Effects.Json.{items_of, Json, num, obj, arr, Fields, end, field}
use signet_platform.Effects.Stages.{DeployStage, UserOpStage}
use signet_platform.Effects.World.{World, Exec, ◌>>=◌, ◌>>◌, pure, emit, deploy_stage, navigated}
use signet_platform.Api.Query.{Urls}
use signet_platform.Api.Endpoints.{OrgEndpoint, org_call, text_field}
use signet_platform.Api.AppEndpoints.{AppEndpoint, app_call, send}
use signet_platform.UserOp.Wire.{SignedUserOp}
use signet_platform.Onchain.Body.{user_op_fields}
use signet_platform.Onchain.Call.{Console, DeployRequest, IssuerEntry, sign_create_group}
use signet_platform.Console.Refresh.{refresh_session}

-- What the wizard asked for. `client_ids` are the texts by their issuers.
pub record Draft : Type 0 where
  pub name : Str
  pub description : Str
  pub selected : List Str
  pub threshold : ℕ
  pub removal_delay : ℕ
  pub issuers : List Str
  pub client_ids : Str → Option Str

-- The client ids of an issuer: trimmed, and without the empty ones.
unfoldable pub client_ids_of : Draft → Str → List Str
unfolding comma_list
client_ids_of d issuer = comma_list (elim (d.client_ids issuer) [ none ↦ [] | some t ↦ t ])

unfoldable pub issuer_payload : Draft → List IssuerEntry
unfolding client_ids_of
issuer_payload d = map (λ i. record { issuer = i; client_ids = client_ids_of d i }) d.issuers

pub record KnownIssuer : Type 0 where
  pub issuer : Str
  pub provider : Str
  pub label : Str

-- `KNOWN_ISSUERS`
abbrev pub known_issuers : List KnownIssuer
known_issuers =
    record {
      issuer = codes "https://accounts.google.com";
      provider = codes "google";
      label = codes "Google";
    }
    ∷ record {
      issuer = codes "https://appleid.apple.com";
      provider = codes "apple";
      label = codes "Apple";
    }
    ∷ []

unfoldable pub app_fields : Draft → NetworkConfig → Fields
app_fields d network = text_field (codes "name") (trim d.name) (
    text_field (codes "description") d.description (
      text_field (codes "environment") (codes "development")
        (field (codes "chain_id") (num network.chain_id) end)))

unfoldable pub issuer_fields : Draft → Str → Fields
unfolding client_ids_of ◌===◌
issuer_fields d issuer =
    let known = find (λ (k : KnownIssuer). k.issuer === issuer) known_issuers in
    text_field (codes "issuer") issuer (
      field (codes "client_ids") (arr (items_of (client_ids_of d issuer))) (
        text_field (codes "provider") (elim known [ none ↦ codes "custom" | some k ↦ k.provider ])
          (text_field (codes "label") (elim known [ none ↦ [] | some k ↦ k.label ]) end)))

unfoldable pub deploy_fields : Draft → SignedUserOp → Fields
unfolding user_op_fields
deploy_fields d op = field (codes "nodes") (arr (items_of d.selected)) (
    field (codes "threshold") (num d.threshold) (
      field (codes "removal_delay_seconds") (num d.removal_delay)
        (field (codes "user_op") (obj (user_op_fields op)) end)))

unfoldable pub create_request : NetworkConfig → User → Draft → DeployRequest
unfolding issuer_payload
create_request network user d = record {
  network = network;
  user = user;
  nodes = d.selected;
  threshold = d.threshold;
  removal_delay_seconds = d.removal_delay;
  issuers = issuer_payload d;
  auth_keys = [];
  sponsored = some network.sponsor_group_creation;
}

-- What the page shows of the deployment.
pub record Deployment : Type 0 where
  pub stage : Option DeployStage
  pub failure : Option Failure

-- What it shows once the `try` has ended. The last stage stays, until the browser goes to the app.
abbrev pub after_deploy : Result (Unit {0}) × World → World × Deployment
after_deploy (ok u, w) =
    (w, record { stage = some (DeployStage.userop UserOpStage.done); failure = none })
after_deploy (err e, w) = (w, record { stage = none; failure = some e })

-- An answer of the API that is an app is taken as one.
module _ (c : Console) (urls : Urls) (as_app : Json → App) where
  open c use {host}

  -- `setStage`
  abbrev pub at_stage : UserOpStage → Exec (Unit {0})
  at_stage s = emit (deploy_stage (DeployStage.userop s))

  unfoldable pub create_app : Organization → NetworkConfig → Draft → Exec App
  unfolding app_fields
  create_app org network d = do
    at_stage UserOpStage.building
    answer ← send host (org_call org.id (OrgEndpoint.create_app (app_fields d network)))
    pure (as_app answer)

  -- The group: one that is there, or a new one.
  unfoldable pub give_group : NetworkConfig → User → Draft → Option Str → App → Exec (Unit {0})
  unfolding deploy_fields create_request
  give_group network user d (some address) app = do
    emit (deploy_stage DeployStage.attaching)
    send host (app_call urls app.id (AppEndpoint.attach_group address none))
    pure tt
  give_group network user d none app = do
    op ← sign_create_group c (create_request network user d)
    at_stage UserOpStage.submitting
    send host (app_call urls app.id (AppEndpoint.deploy_group (deploy_fields d op)))
    pure tt

  unfoldable pub save_issuers : Draft → List Str → App → Exec (Unit {0})
  unfolding issuer_fields
  save_issuers d [] app = pure tt
  save_issuers d (i ∷ is) app =
      send host (app_call urls app.id (AppEndpoint.save_issuer (issuer_fields d i)))
      >> save_issuers d is app

  -- `existingGroup?.trim()`, if it is not empty
  abbrev pub group_given : Option Str → Option Str
  group_given existing = elim existing [ none ↦ none | some g ↦ truthy (some (trim g)) ]

  -- The `try` of `deploy`.
  unfoldable pub deploy_steps :
      Organization → NetworkConfig → User → Draft → Option Str → Exec (Unit {0})
  unfolding create_app give_group save_issuers refresh_session
  deploy_steps org network user d existing = do
    app ← create_app org network d
    give_group network user d (group_given existing) app
    save_issuers d (elim (truthy existing) [ none ↦ d.issuers | some g ↦ [] ]) app
    at_stage UserOpStage.done
    refresh_session host urls
    emit (navigated (codes "/apps/" ++ (app.id ++ codes "?created=1")))

  unfoldable pub deploy :
      Option Organization
      → Option NetworkConfig
      → Option User
      → Draft
      → Option Str
      → World × Deployment
      → World × Deployment
  unfolding deploy_steps
  deploy (some org) (some network) (some user) d existing (w, page) =
      after_deploy (deploy_steps org network user d existing w)
  deploy _ _ _ d existing (w, page) = (w, page)
