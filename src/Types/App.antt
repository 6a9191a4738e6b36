-- ===== src/Types/App.antt =====
-- web/lib/types.ts: the apps of an organization, its members, and the settings of an app, each
-- section of which one page of the console owns. A field that may be absent is an `Option`.
use signet_platform.Prelude.{ℕ, Bool, Option, List}
use signet_platform.Prelude.Text.{Str}
use signet_platform.Types.Account.{Role}

pub record EnvironmentRequirement : Type 0 where
  pub id : Str
  pub label : Str
  pub detail : Str
  pub met : Bool
  pub blocking : Bool

pub record EnvironmentCheck : Type 0 where
  pub from : Str
  pub to : Str
  pub allowed : Bool
  pub requirements : Option (List EnvironmentRequirement)
  pub note : Str

pub record OrgMember : Type 0 where
  pub user_id : Str
  pub subject : Str
  pub email : Option Str
  pub display_name : Str
  pub avatar_url : Option Str
  pub role : Role
  pub created_at : Str

pub record OrgInvite : Type 0 where
  pub id : Str
  pub email : Str
  pub role : Role
  pub expires_at : Str
  pub created_at : Str
  pub token : Option Str
  pub accept_url : Option Str
  pub accepted_at : Option Str

pub record LoginMethodSettings : Type 0 where
  pub google : Option Bool
  pub apple : Option Bool
  pub email : Option Bool
  pub sms : Option Bool
  pub passkey : Option Bool
  pub wallet : Option Bool
  pub farcaster : Option Bool
  pub telegram : Option Bool
  pub guest : Option Bool
  pub custom_jwt : Option Bool
  pub auth_key : Option Bool
  pub onchain_resolver : Option Bool
  pub primary : Option (List Str)

pub data Theme : Type 0 where
  light dark system : Theme

pub data CornerRadius : Type 0 where
  sharp soft round : CornerRadius

pub record BrandingSettings : Type 0 where
  pub theme : Option Theme
  pub accent_color : Option Str
  pub logo_url : Option Str
  pub app_name : Option Str
  pub header_text : Option Str
  pub login_message : Option Str
  pub terms_url : Option Str
  pub privacy_url : Option Str
  pub show_wallet_ui : Option Bool
  pub corner_radius : Option CornerRadius

pub data Implementation : Type 0 where
  signet_kernel signet_minimal external : Implementation

pub record SmartAccountSettings : Type 0 where
  pub enabled : Option Bool
  pub implementation : Option Implementation
  pub entrypoint : Option Str
  pub bundler_url : Option Str
  pub paymaster_url : Option Str
  pub paymaster_enabled : Option Bool
  pub sponsor_first_deployment : Option Bool

pub record FundingSettings : Type 0 where
  pub enabled : Option Bool
  pub providers : Option (List Str)
  pub default_asset : Option Str

pub record ComplianceSettings : Type 0 where
  pub terms_url : Option Str
  pub privacy_url : Option Str
  pub data_region : Option Str
  pub retention_days : Option ℕ

pub record AppDomain : Type 0 where
  pub id : Str
  pub origin : Str
  pub verified_at : Option Str
  pub created_at : Str

pub data Curve : Type 0 where
  frost_secp256k1 frost_ed25519 ecdsa_secp256k1 : Curve

pub data WalletCreation : Type 0 where
  on_login on_demand off : WalletCreation

pub data Prover : Type 0 where
  client server : Prover

pub record EmbeddedWalletSettings : Type 0 where
  pub creation : Option WalletCreation
  pub curves : Option (List Curve)
  pub default_curve : Option Curve
  pub require_confirmation_on_sign : Option Bool
  pub require_confirmation_on_transaction : Option Bool
  pub prover : Option Prover
  pub session_ttl_seconds : Option ℕ
  pub default_chain_id : Option ℕ
  pub chain_ids : Option (List ℕ)

pub record SessionSignerSettings : Type 0 where
  pub enabled : Option Bool
  pub max_ttl_seconds : Option ℕ
  pub default_ttl_seconds : Option ℕ
  pub require_scope : Option Bool
  pub allowed_curves : Option (List Curve)

pub record AppSettings : Type 0 where
  pub login_methods : LoginMethodSettings
  pub branding : BrandingSettings
  pub embedded_wallets : EmbeddedWalletSettings
  pub smart_accounts : SmartAccountSettings
  pub session_signers : SessionSignerSettings
  pub funding : FundingSettings
  pub compliance : ComplianceSettings
  pub updated_at : Str

pub data OnchainStatus : Type 0 where
  unknown pending active removed : OnchainStatus

pub record Issuer : Type 0 where
  pub id : Str
  pub issuer : Str
  pub issuer_hash : Option Str
  pub client_ids : List Str
  pub provider : Str
  pub label : Str
  pub enabled : Bool
  pub onchain_status : OnchainStatus
  pub created_at : Str
