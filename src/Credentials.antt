-- ===== src/Credentials.antt =====
-- web/app/(console)/apps/[appId]/credentials/page.tsx: the secrets and the authorization keys of an
-- app. The text of a stage is shown only on the page, and is left out.
pub mod Secrecy
pub mod Page
pub mod Told
pub mod Registered
use signet_platform.Prelude.{ℕ, Bool, ◌&&◌, Option, none, some, List, [], ◌∷◌, ◌++◌, if◌then◌else◌}
use signet_platform.Prelude.Text.{Str, codes, truthy}
use signet_platform.Prelude.Hex.{bytes_to_hex}
use signet_platform.Types.Account.{User, NetworkConfig}
use signet_platform.Types.App.{OnchainStatus, unknown, pending, active, removed}
use signet_platform.Effects.Failure.{no_group}
use signet_platform.Effects.Json.{Json, str, obj, Fields, end, field, string_member, with_members}
use signet_platform.Effects.World.{Exec, ◌>>=◌, ◌>>◌, pure, raise, lift, try_catch}
use signet_platform.Api.Query.{Urls}
use signet_platform.Api.Endpoints.{text_field}
use signet_platform.Api.AppEndpoints.{AppEndpoint, app_call, send}
use signet_platform.Abi.{GroupFunction, add_auth_key, remove_auth_key}
use signet_platform.Onchain.Transport.{Transport}
use signet_platform.Onchain.Call.{Console, GroupCall, OnchainProof, submit_group_call}
use signet_platform.Onchain.Body.{proof_fields}

pub data CredentialKind : Type 0 where
  app_secret auth_key : CredentialKind

-- `Credential` of web/lib/types.ts, of which the handlers read these members.
pub record Credential : Type 0 where
  pub id : Str
  pub kind : CredentialKind
  pub key_hash : Option Str
  pub onchain_status : OnchainStatus

-- What the page knows of the signed-in user and of the group.
pub record Context : Type 0 where
  pub network : Option NetworkConfig
  pub user : Option User
  pub group_address : Option Str
  pub sponsored : Bool
  pub transport : Transport

-- A key pair of secp256k1, the public half compressed
pub record KeyPair : Type 0 where
  pub private_key : List ℕ
  pub public_key : List ℕ

-- `c.kind === "auth_key" && c.onchain_status === "active"`
unfoldable pub is_registered : Credential → Bool
is_registered c = elim c.kind [
  | app_secret ↦ Bool.false
  | auth_key ↦ elim c.onchain_status [ active ↦ Bool.true | _ ↦ Bool.false ]
]

-- `user_op: proof`, which leaves `undefined` out
unfoldable pub key_credential : Str → Str → Option OnchainProof → Fields
unfolding proof_fields
key_credential label public_hex proof = text_field (codes "kind") (codes "auth_key") (
    text_field (codes "label") label (
      text_field (codes "public_key") public_hex
        (elim proof [ none ↦ end | some p ↦ field (codes "user_op") (obj (proof_fields p)) end ])))

-- `arguments` makes the arguments of a group call from a hex text.
module _ (c : Console) (urls : Urls) (arguments : Str → c.viem.Args) where
  open c use {host}

  abbrev pub key_call : Context → NetworkConfig → User → GroupFunction → Str → GroupCall c
  key_call x network user f hex = record {
    network = network;
    user = user;
    group_address = x.group_address;
    function_name = f;
    args = arguments hex;
    sponsored = some x.sponsored;
  }

  -- The proof that a key is removed from the group, if it is registered there.
  unfoldable pub removal_proof :
      Context
      → Option NetworkConfig
      → Option User
      → Option Str
      → Credential
      → Exec (Option OnchainProof)
  unfolding is_registered
  removal_proof x (some network) (some user) (some hash) credential =
      if is_registered credential
      then submit_group_call c x.transport (key_call x network user remove_auth_key hash)
      else pure none
  removal_proof x _ _ _ credential = pure none

  unfoldable pub revocation : Str → Str → Option OnchainProof → Exec Json
  revocation app_id id proof = send host (
      app_call urls app_id (
        AppEndpoint.revoke_credential id
          (elim proof [ none ↦ none | some p ↦ some (proof_fields p) ])))

  -- `creds.refresh()`, whose failure the hook keeps to itself.
  unfoldable pub refresh_credentials : Str → Exec (Unit {0})
  refresh_credentials app_id =
      try_catch (send host (app_call urls app_id AppEndpoint.credentials) >> pure tt) (pure tt)

  -- The rest of `revoke`, once its proof is there.
  unfoldable pub revoke_with : Str → Str → Option OnchainProof → Exec Json
  unfolding revocation refresh_credentials
  revoke_with app_id id proof = revocation app_id id proof >>= λ result.
      refresh_credentials app_id >> lift (with_members result)

  -- `revoke`, up to its toast
  unfoldable pub revoke_steps : Str → Context → Credential → Exec Json
  unfolding removal_proof revoke_with
  revoke_steps app_id x credential =
      removal_proof x x.network x.user (truthy credential.key_hash) credential
      >>= revoke_with app_id credential.id

  -- `create` of an application secret: `cred.secret ?? ""`
  unfoldable pub create_secret : Str → Str → Exec Str
  create_secret app_id label = do
    answer ← send host (
        app_call urls app_id (
          AppEndpoint.create_credential (
            text_field (codes "kind") (codes "app_secret") (text_field (codes "label") label end))))
    read ← lift (with_members answer)
    pure (elim (string_member (codes "secret") read) [ none ↦ [] | some secret ↦ secret ])

  unfoldable pub recording : Str → Str → Str → Option OnchainProof → Exec Json
  unfolding key_credential
  recording app_id label public_hex proof =
      send host (
        app_call urls app_id
          (AppEndpoint.create_credential (key_credential label public_hex proof)))

  -- `create` of an authorization key: the key is registered with the group, and recorded.
  unfoldable pub register_key :
      Str → Context → Option Str → Option NetworkConfig → Option User → Str → Str → Exec (Unit {0})
  unfolding recording
  register_key app_id x (some group) (some network) (some user) label public_hex = do
    proof ← submit_group_call c x.transport (key_call x network user add_auth_key public_hex)
    recording app_id label public_hex proof
    pure tt
  register_key app_id x _ _ _ label public_hex = raise no_group

  -- The whole of it gives the private key to the page, which shows it.
  unfoldable pub create_auth_key : Str → Context → Str → KeyPair → Exec Str
  unfolding register_key
  create_auth_key app_id x label key =
      register_key app_id x (truthy x.group_address) x.network x.user label
        (codes "0x" ++ bytes_to_hex key.public_key)
      >> pure (bytes_to_hex key.private_key)
