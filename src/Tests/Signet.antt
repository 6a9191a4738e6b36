-- ===== src/Tests/Signet.antt =====
-- web/lib/signet.ts at concrete inputs.
use signet_platform.Prelude.{◌≡◌, refl, arith, none, some}
use signet_platform.Prelude.Text.{codes}
use signet_platform.Prelude.Decimal.{to_decimal}
use signet_platform.Effects.Failure.{ok, err, session_expired, returned}
use signet_platform.Effects.Json.{end, str, field}
use signet_platform.Effects.World.{World}
use signet_platform.Signet.{SignOptions, SignRequest, sign_with_bootstrap_group}
use signet_platform.Signet.Siwe.{SiweOptions}
use signet_platform.Signet.Siwe.Message.{IsSingleLined, build_siwe_message_injective}
use signet_platform.Tests.Samples.{claims, keypair, network, tab, host}

abbrev options : SignOptions
options = record {
  network = network;
  session_keypair = keypair;
  claims = claims;
  digest_hex = codes "0x0102";
  identity = none;
  node_url = some (codes "https://node2");
}

abbrev sign_request : SignRequest
sign_request keys _ group digest identity = returned (field (codes "key_id") (str (codes "k")) end)

expired_run :
    (sign_with_bootstrap_group (host 401) sign_request options (tab 0 none)).0 ≡ err session_expired
unfolding sign_with_bootstrap_group
expired_run = refl

abbrev signed_tab : World
signed_tab = (sign_with_bootstrap_group (host 200) sign_request options (tab 0 none)).1

signed_run :
    sign_with_bootstrap_group (host 200) sign_request options (tab 0 none)
    ≡ (ok (codes "0x51"), signed_tab)
unfolding sign_with_bootstrap_group
signed_run = refl

abbrev message_options : SiweOptions
message_options = record {
  domain = codes "signet.dev";
  address = codes "0xEOA";
  statement = codes "Sign in";
  uri = codes "https://signet.dev";
  chain_id = 10;
  nonce = codes "n1";
}

message-IsSingleLined : IsSingleLined message_options (codes "2026")
unfolding to_decimal
message-IsSingleLined = record { lines = omega arith }

build_siwe_message_injective_example :
    (message_options ≡ message_options) × (codes "2026" ≡ codes "2026")
build_siwe_message_injective_example =
    build_siwe_message_injective message_options message_options (codes "2026") (codes "2026")
      message-IsSingleLined message-IsSingleLined refl
