-- ===== src/Tests/Provision.antt =====
-- Tests of the provisioning of a key.
use signet_platform.Prelude.{◌≡◌, refl, ◌⊎◌, ℕ, none, some, [], ◌∷◌, Option}
use signet_platform.Prelude.Text.{codes}
use signet_platform.Types.Account.{NodeCertificate}
use signet_platform.Effects.Failure.{ok, err, returned, api_error, Failure}
use signet_platform.Effects.World.{World}
use signet_platform.Provision.Requests.{Provider, GeneratedKey, ProvisionResult}
use signet_platform.Provision.Steps.{provision_signet_key}
use signet_platform.Provision.Session.{IsProvisioned, provision_signet_key-IsProvisioned}
use signet_platform.Tests.Samples.{codec, keypair, tab, network, host}

abbrev certificate : NodeCertificate
certificate = record {
  certificate = record {
    identity = codes "u1";
    expiry = 1_700_000_000;
    auth_key_pub = codes "02";
    signature = codes "30";
  };
  group_id = codes "0xB0";
  node_urls = codes "https://node1" ∷ [];
  identity = codes "u1";
}

abbrev pub key : GeneratedKey
key = record {
  group_public_key = codes "03cd";
  key_id = codes "k1";
  ethereum_address = codes "0xE1";
}

abbrev pub provider : Provider
provider = record {
  new_keypair = returned keypair;
  keygen = λ r. returned key;
  account_of = λ rpc factory entrypoint k. returned (codes "0xACC");
  as_certificate = λ j. certificate;
}

abbrev provisioned : ProvisionResult
provisioned = record {
  group_public_key = codes "03cd";
  key_id = codes "k1";
  key_address = codes "0xE1";
  smart_account = some (codes "0xACC");
}

-- The tab after a provisioning whose requests are answered with a status.
abbrev left_by : ℕ → World
left_by status = (provision_signet_key (host status) provider codec network (tab 0 none)).1

provisioned_run :
    provision_signet_key (host 200) provider codec network (tab 0 none)
    ≡ (ok provisioned, left_by 200)
unfolding provision_signet_key signet_platform.Api.request
provisioned_run = refl

provision_signet_key-IsProvisioned_example :
    IsProvisioned (host 200) provider codec network (tab 0 none) (left_by 200) provisioned
provision_signet_key-IsProvisioned_example =
    provision_signet_key-IsProvisioned (host 200) provider codec network (tab 0 none) (left_by 200)
      provisioned provisioned_run

abbrev refusal : Failure
refusal = api_error 500 (codes "request failed (500)")

failed_run :
    provision_signet_key (host 500) provider codec network (tab 0 none) ≡ (err refusal, left_by 500)
unfolding provision_signet_key signet_platform.Api.request
    signet_platform.Prelude.Decimal.to_decimal
failed_run = refl
