-- ===== src/Credentials/Told.antt =====
-- web/app/(console)/apps/[appId]/credentials/page.tsx: what the page says of a credential is what the
-- group's contract and the platform were told.
use signet_platform.Prelude.{◌≡◌, ◌⊎◌, Bool, true, false, Option, none, some, [], ◌∷◌, ◌++◌}
use signet_platform.Prelude.Text.{Str, truthy}
use signet_platform.Types.Account.{User, NetworkConfig}
use signet_platform.Effects.Failure.{Failure, ok, err}
use signet_platform.Effects.Json.{Json, with_members}
use signet_platform.Effects.World.{World, Exec, ◌>>◌, lift}
use signet_platform.Api.Query.{Urls}
use signet_platform.Api.AppEndpoints.{AppEndpoint, app_call, send}
use signet_platform.Types.App.{OnchainStatus, active}
use signet_platform.Abi.{remove_auth_key}
use signet_platform.Onchain.Body.{proof_fields}
use signet_platform.Onchain.Transport.{Transport}
use signet_platform.Onchain.Call.{Console, GroupCall, OnchainProof}
use signet_platform.Onchain.Call.Accepted.{IsAccepted, IsFailed}
use signet_platform.Credentials.{Credential, CredentialKind, auth_key, Context, refresh_credentials}
use signet_platform.Credentials.Page.{Page, revoked_toast}

abbrev pub signed_in_context : NetworkConfig → User → Option Str → Bool → Transport → Context
signed_in_context network user group sponsored transport = record {
  network = some network;
  user = some user;
  group_address = group;
  sponsored = sponsored;
  transport = transport;
}

module _ (c : Console) (urls : Urls) (arguments : Str → c.viem.Args) (network : NetworkConfig)
    (user : User) (group : Option Str) (sponsored : Bool) (transport : Transport) (app_id : Str)
    (w : World) where
  abbrev context : Context
  context = signed_in_context network user group sponsored transport

  -- What the platform is asked, with the proof if there is one.
  abbrev pub revokes : Str → Option OnchainProof → Exec Json
  revokes id proof = send c.host (
      app_call urls app_id (
        AppEndpoint.revoke_credential id
          (elim proof [ none ↦ none | some p ↦ some (proof_fields p) ])))

  -- The call of the group's contract with the hash of a key.
  abbrev pub removes : Str → GroupCall c
  removes hash = record {
    network = network;
    user = user;
    group_address = group;
    function_name = remove_auth_key;
    args = arguments hash;
    sponsored = some sponsored;
  }

  -- Whether it is an authorization key whose state on the chain is active.
  abbrev pub is_on_chain : CredentialKind → OnchainStatus → Bool
  is_on_chain auth_key active = true
  is_on_chain _ _ = false

  -- Without a proof, the platform refused, or its answer could not be read.
  abbrev pub IsRefused : Str → Failure → Type 0
  IsRefused id e =
      ((u : World) × (revokes id none w ≡ (err e, u)))
      ⊎ ((answer : Json) × (u : World) × (revokes id none w ≡ (ok answer, u))
          × (with_members answer ≡ err e))

  -- The platform has revoked the credential: one that is registered with the group, by the hash of
  -- its key, with the transport's proof that the group's contract was called to remove that key, and
  -- any other without a proof.
  abbrev pub IsTold : Str → Bool → Option Str → Json → Type 0
  IsTold id true (some hash) answer = IsAccepted c transport (removes hash) (revokes id) answer w
  IsTold id _ _ answer = (u : World) × (revokes id none w ≡ (ok answer, u))

  -- The revocation failed: the call, the platform, or the reading of its answer.
  abbrev pub IsUntold : Str → Bool → Option Str → Failure → Type 0
  IsUntold id true (some hash) e = IsFailed c transport (removes hash) (revokes id) e w
  IsUntold id _ _ e = IsRefused id e

  -- How the revocation of a credential ends, from the page `page` on.
  abbrev pub IsRevoked : Credential → Page → World × Page → Type 0
  IsRevoked credential page (w', page') =
      ((answer : Json) × (page'
          ≡ record page { revoke_error = none; toasts = page.toasts ++ revoked_toast answer ∷ [] })
        × IsTold credential.id (is_on_chain credential.kind credential.onchain_status)
            (truthy credential.key_hash) answer)
      ⊎ ((e : Failure) × (page' ≡ record page { revoke_error = some e })
          × IsUntold credential.id (is_on_chain credential.kind credential.onchain_status)
              (truthy credential.key_hash) e)

  abbrev last : Json → Exec Json
  last result = refresh_credentials c urls arguments app_id >> lift (with_members result)
