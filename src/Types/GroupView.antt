-- ===== src/Types/GroupView.antt =====
-- web/lib/types.ts: an app with its signing group, as the platform and the chain give it.
use signet_platform.Prelude.{ℕ, Bool, Option, List}
use signet_platform.Prelude.Text.{Str}
use signet_platform.Types.Group.{NodeOperator}

pub data Environment : Type 0 where
  development production : Environment

pub data AppStatus : Type 0 where
  provisioning live suspended archived : AppStatus

pub record App : Type 0 where
  pub id : Str
  pub org_id : Str
  pub name : Str
  pub slug : Str
  pub description : Str
  pub environment : Environment
  pub status : AppStatus
  pub chain_id : ℕ
  pub group_address : Option Str
  pub group_public_key : Option Str
  pub threshold : Option ℕ
  pub node_count : Option ℕ
  pub is_operational : Option Bool
  pub logo_url : Option Str
  pub website_url : Option Str
  pub deployed_at : Option Str
  pub synced_at : Option Str
  pub created_at : Str
  pub updated_at : Str

pub data NodeStatus : Type 0 where
  active pending removing : NodeStatus

pub record GroupNode : Type 0 where
  pub address : Str
  pub status : NodeStatus
  pub execute_after : Option Str
  pub removal_initiator : Option Str
  pub joined_at : Option Str
  pub operator : Option NodeOperator

pub record OnchainIssuer : Type 0 where
  pub issuer : Str
  pub client_ids : List Str

pub record OnchainRemoval : Type 0 where
  pub node : Str
  pub execute_after : ℕ
  pub initiator : Str

pub record OnchainAuthResolver : Type 0 where
  pub chain_id : ℕ
  pub resolver : Str
  pub require_canonical_subject : Bool

pub record PendingResolver : Type 0 where
  pub execute_after : ℕ
  pub next : OnchainAuthResolver

pub record OnchainGroupState : Type 0 where
  pub address : Str
  pub manager : Str
  pub threshold : ℕ
  pub removal_delay : ℕ
  pub is_operational : Bool
  pub active_nodes : List Str
  pub pending_nodes : List Str
  pub pending_removals : List OnchainRemoval
  pub issuers : List OnchainIssuer
  pub auth_keys : List Str
  pub siwe_domains : List Str
  pub auth_resolver : Option OnchainAuthResolver
  pub pending_resolver : Option PendingResolver

pub record GroupView : Type 0 where
  pub app : App
  pub nodes : List GroupNode
  pub onchain : Option OnchainGroupState
  pub sync_error : Option Str
