-- ===== src/Types/Group.antt =====
-- web/lib/types.ts: node operators as the directory lists them.
use signet_platform.Prelude.{ℕ, Bool, Option}
use signet_platform.Prelude.Text.{Str}

pub data Category : Type 0 where
  enterprise infrastructure custodian independent signet : Category

pub record NodeHealth : Type 0 where
  pub online : Bool
  pub latency_ms : Option ℕ
  pub peer_count : Option ℕ
  pub uptime_pct_24h : Option ℕ
  pub last_error : Option Str
  pub observed_at : Option Str

pub record NodeOperator : Type 0 where
  pub address : Str
  pub name : Str
  pub slug : Str
  pub description : Str
  pub website_url : Option Str
  pub logo_url : Option Str
  pub api_url : Option Str
  pub region : Str
  pub jurisdiction : Str
  pub category : Category
  pub verified : Bool
  pub is_open : Option Bool
  pub registered_at : Option Str
  pub operator_address : Option Str
  pub group_count : ℕ
  pub synced_at : Option Str
  pub health : Option NodeHealth
