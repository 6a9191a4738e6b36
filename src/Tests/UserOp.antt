-- ===== src/Tests/UserOp.antt =====
-- web/lib/userop.ts at concrete inputs.
use signet_platform.Prelude.{◌≡◌, refl, arith, true, none, []}
use signet_platform.Prelude.Text.{Str, codes}
use signet_platform.Prelude.Hex.{to_string16, big_int}
use signet_platform.Effects.Failure.{Result, ok, returned}
use signet_platform.Effects.World.{World}
use signet_platform.Effects.Json.{str, field, end}
use signet_platform.UserOp.Wire.{PackedUserOp, SignedUserOp, pack_pair, hex_number, serialize}
use signet_platform.UserOp.Wire.Laws.{serialize-pack_pair}
use signet_platform.UserOp.Build.{
  Sdk, BuildRequest, build_signed_user_op, uses_paymaster, build_steps, draft_step, stub_step,
  estimate_step, sponsor_step, sign_step,
}
use signet_platform.UserOp.Build.Order.{IsBuilt, build_signed_user_op-IsBuilt}
use signet_platform.Signet.{sign_with_bootstrap_group}
use signet_platform.Tests.Samples.{session, network, tab, host}

abbrev pub op : PackedUserOp
op = record {
  sender = codes "0xAbCd";
  nonce = 5;
  init_code = codes "0x";
  call_data = codes "0x1234";
  account_gas_limits = pack_pair 50000 21000;
  pre_verification_gas = 100;
  gas_fees = pack_pair 1 2;
  paymaster_and_data = codes "0x00112233445566778899aabbccddeeff00112233beef";
  signature = codes "0x51";
}

serialize-pack_pair_example :
    (u : SignedUserOp) × (serialize op ≡ ok u)
    × (u.verification_gas_limit ≡ hex_number 50000)
    × (u.call_gas_limit ≡ hex_number 21000)
    × (u.max_priority_fee_per_gas ≡ hex_number 1)
    × (u.max_fee_per_gas ≡ hex_number 2)
serialize-pack_pair_example =
    serialize-pack_pair op 50000 21000 1 2 (omega arith) (omega arith) (omega arith) (omega arith)
      refl refl

abbrev pub wire : SignedUserOp
wire = record {
  sender = codes "0xAbCd";
  nonce = codes "0x5";
  factory = [];
  factory_data = [];
  call_data = codes "0x1234";
  call_gas_limit = codes "0x5208";
  verification_gas_limit = codes "0xc350";
  pre_verification_gas = codes "0x64";
  max_fee_per_gas = codes "0x2";
  max_priority_fee_per_gas = codes "0x1";
  paymaster = codes "0x00112233445566778899aabbccddeeff00112233";
  paymaster_data = codes "0xbeef";
  signature = codes "0x51";
}

wire_run : serialize op ≡ ok wire
unfolding serialize pack_pair to_string16 big_int
wire_run = refl

-- An SDK whose paymaster writes its sponsorship into the operation.
abbrev pub sdk : Sdk
sdk = record {
  Sponsorship = Str;
  fetch_nonce = λ rpc entry sender. returned 5;
  build_init_code = λ rpc factory entry sender key. returned (codes "0x");
  build_user_op = λ sender nonce init dest call. record {
    sender = sender;
    nonce = nonce;
    init_code = init;
    call_data = call;
    account_gas_limits = codes "0x";
    pre_verification_gas = 0;
    gas_fees = codes "0x";
    paymaster_and_data = codes "0x";
    signature = codes "0x";
  };
  paymaster_stub_data = λ entry chain o. returned (codes "0x01");
  paymaster_data = λ entry chain o. returned (codes "0x02");
  apply_sponsorship = λ o s. record o { paymaster_and_data = s };
  estimate_gas = λ entry o. returned (record {
    verification_gas_limit = 50000;
    call_gas_limit = 21000;
    pre_verification_gas = 100;
  });
  user_op_hash = λ o entry chain. codes "0x0102";
  sign_request =
      λ keys c group digest identity. returned (field (codes "key_id") (str (codes "k")) end);
}

abbrev build : BuildRequest
build = record {
  network = network;
  session = session;
  sender = codes "0xAbCd";
  dest = codes "0xGROUP";
  call_data = codes "0x1234";
  sponsored = none;
}

abbrev built : Result SignedUserOp × World
built = build_signed_user_op sdk (host 200) true build (tab 0 none)

abbrev pub built_op : SignedUserOp
built_op = record wire {
  max_fee_per_gas = codes "0x0";
  max_priority_fee_per_gas = codes "0x0";
  paymaster = [];
  paymaster_data = [];
}

built_run : build_signed_user_op sdk (host 200) true build (tab 0 none) ≡ (ok built_op, built.1)
unfolding build_signed_user_op build_steps draft_step stub_step estimate_step sponsor_step sign_step
    sign_with_bootstrap_group serialize pack_pair to_string16 big_int
built_run = refl

build_signed_user_op-IsBuilt_example :
    IsBuilt sdk (host 200) build (uses_paymaster true build) (tab 0 none) built.1 built_op
build_signed_user_op-IsBuilt_example =
    build_signed_user_op-IsBuilt sdk (host 200) build true (tab 0 none) built.1 built_op built_run
