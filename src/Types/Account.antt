-- ===== src/Types/Account.antt =====
-- web/lib/types.ts: users, organizations, the network and the certificates that nodes accept.
use signet_platform.Prelude.{ℕ, Bool, Option, List}
use signet_platform.Prelude.Text.{Str}

pub data Role : Type 0 where
  owner admin developer viewer : Role

pub data SubjectKind : Type 0 where
  signet siwe : SubjectKind

pub record User : Type 0 where
  pub id : Str
  pub subject : Str
  pub subject_kind : SubjectKind
  pub account_address : Option Str
  pub group_public_key : Option Str
  pub smart_account_address : Option Str
  pub signet_key_id : Option Str
  pub signet_key_address : Option Str
  pub email : Option Str
  pub display_name : Str
  pub avatar_url : Option Str
  pub is_staff : Bool
  pub last_seen_at : Option Str
  pub created_at : Str

pub record NetworkConfig : Type 0 where
  pub chain_id : ℕ
  pub rpc_url : Str
  pub factory_address : Str
  pub account_factory_address : Str
  pub entrypoint_address : Str
  pub bundler_url : Str
  pub bootstrap_group : Str
  pub bootstrap_nodes : List Str
  pub siwe_enabled : Bool
  pub paymaster_url : Str
  pub paymaster_address : Str
  pub sponsor_group_creation : Bool
  pub first_party_category : Str
  pub development_policy : Str

pub data Plan : Type 0 where
  developer team enterprise : Plan

pub record Organization : Type 0 where
  pub id : Str
  pub name : Str
  pub slug : Str
  pub logo_url : Option Str
  pub website_url : Option Str
  pub billing_email : Option Str
  pub plan : Plan
  pub role : Option Role
  pub app_count : ℕ
  pub created_at : Str

pub record Session : Type 0 where
  pub user : User
  pub organizations : List Organization
  pub network : NetworkConfig

pub record Certificate : Type 0 where
  pub identity : Str
  pub expiry : ℕ
  pub auth_key_pub : Str
  pub signature : Str

pub record NodeCertificate : Type 0 where
  pub certificate : Certificate
  pub group_id : Str
  pub node_urls : List Str
  pub identity : Str
