-- ===== src/Tests/Samples.antt =====
-- Values that the tests share: a tab, a network, a user and a session.
use signet_platform.Prelude.{ℕ, true, false, Option, none, some, [], ◌∷◌}
use signet_platform.Prelude.Text.{Str, codes}
use signet_platform.Types.Account.{User, NetworkConfig, signet}
use signet_platform.Effects.Failure.{returned}
use signet_platform.Effects.Json.{str, obj, end, field}
use signet_platform.Effects.World.{World, priv_key, pub_key, claims_key, group_key, identity_key}
use signet_platform.Effects.Host.{Host}
use signet_platform.SessionKey.{Claims, Codec, SigningSession, SessionKeypair, number}

abbrev pub claims : Claims
claims = record {
  iss = codes "https://accounts.google.com";
  sub = codes "1234";
  exp = number 1_700_000_000;
  aud = codes "client";
  azp = codes "client";
}

abbrev pub codec : Codec
codec = record { stringify = λ c. codes "{}"; parse = λ s. some claims }

abbrev pub keypair : SessionKeypair
keypair = record { private_key = 0 ∷ 10 ∷ 255 ∷ []; public_key_hex = codes "02ab" }

abbrev pub session : SigningSession
session = record {
  keypair = keypair;
  claims = claims;
  group_public_key = codes "03cd";
  identity = none;
  node_url = some (codes "https://node1");
}

-- A tab, at a moment in milliseconds, that has the identity `old` in storage.
abbrev pub tab : ℕ → Option Str → World
tab now old = record {
  cells = λ k. elim k [ identity_key ↦ old | _ ↦ none ];
  readable = true;
  accepts = λ c k v. true;
  token = none;
  token_open = true;
  now = now;
  latency = λ n. 5;
  trace = [];
}

abbrev pub network : NetworkConfig
network = record {
  chain_id = 31337;
  rpc_url = codes "http://rpc";
  factory_address = codes "0xFA";
  account_factory_address = codes "0xAF";
  entrypoint_address = codes "0xE0";
  bundler_url = codes "http://bundler";
  bootstrap_group = codes "0xB0";
  bootstrap_nodes = codes "https://node1" ∷ codes "https://node2" ∷ [];
  siwe_enabled = true;
  paymaster_url = codes "http://paymaster";
  paymaster_address = codes "0xAA";
  sponsor_group_creation = true;
  first_party_category = codes "signet";
  development_policy = [];
}

abbrev pub user : User
user = record {
  id = codes "u1";
  subject = codes "s1";
  subject_kind = signet;
  account_address = some (codes "0xEOA");
  group_public_key = none;
  smart_account_address = some (codes "0xAbCd");
  signet_key_id = none;
  signet_key_address = none;
  email = none;
  display_name = codes "Ada";
  avatar_url = none;
  is_staff = false;
  last_seen_at = none;
  created_at = codes "2026-01-01";
}

-- A host that answers every request with one response, whose text is an object with a signature.
abbrev pub host : ℕ → Host
host status = record {
  api_base = codes "http://localhost:8088";
  respond = λ trace req. returned (record { status = status; text = codes "{}" });
  parse_json = λ s. some (obj (field (codes "signature") (str (codes "0x51")) end));
  url_host = λ url. some (codes "node1");
  string_of = λ j. [];
}

-- A tab that holds the session's four texts.
abbrev pub full_tab : ℕ → World
full_tab now = record (tab now none) {
  cells = λ k. elim k [
    | priv_key ↦ some (codes "000aff")
    | pub_key ↦ some (codes "02ab")
    | claims_key ↦ some (codes "{}")
    | group_key ↦ some (codes "03cd")
    | _ ↦ none
  ];
}

abbrev pub found : SigningSession
found = record session { node_url = none }
