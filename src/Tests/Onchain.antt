-- ===== src/Tests/Onchain.antt =====
-- web/lib/onchain.ts at concrete inputs.
use signet_platform.Prelude.{◌+◌, ◌≡◌, refl, true, false, Option, none, some, [], ◌∷◌}
use signet_platform.Prelude.Text.{Str, codes, truthy, to_lower, ◌===◌, lower}
use signet_platform.Prelude.Hex.{to_string16, big_int}
use signet_platform.Effects.Failure.{Result, ok, returned}
use signet_platform.Effects.World.{World}
use signet_platform.Effects.Wallet.{Wallet, Receipt}
use signet_platform.SessionKey.{load_signing_session}
use signet_platform.UserOp.Wire.{SignedUserOp, pack_pair, serialize}
use signet_platform.UserOp.Build.{
  build_signed_user_op, build_steps, draft_step, stub_step, estimate_step, sponsor_step, sign_step,
}
use signet_platform.Signet.{sign_with_bootstrap_group}
use signet_platform.Abi.{invite_node}
use signet_platform.Onchain.Transport.{
  userop, wallet, choose_transport, IsRight, choose_transport-IsRight,
}
use signet_platform.Onchain.Receipt.{wait_for_mined, patience_ms}
use signet_platform.Onchain.Receipt.Laws.{IsWait, wait_for_mined-IsWait}
use signet_platform.Onchain.Call.{
  Console, GroupCall, OnchainProof, transaction_hash, submit_group_call, sign_call, send_group_call,
}
use signet_platform.Onchain.Call.Proof.{IsProof, submit_group_call-IsProof}
use signet_platform.Tests.Samples.{codec, user, network, tab, full_tab, host}
use signet_platform.Tests.UserOp.{sdk, built_op}
use signet_platform.UserOp.Build.{
  build_steps, draft_step, stub_step, estimate_step, sponsor_step, sign_step,
}
use signet_platform.Onchain.Receipt.{ask, polls, settle, wait_for_receipt}
use signet_platform.Onchain.Call.{SignCallRequest}
use signet_platform.SessionKey.{load_signing_session}

-- The manager is the user's smart wallet, in other letter case.
choose_transport-IsRight_example :
    IsRight user (codes "0xABCD") true (choose_transport (some user) (some (codes "0xABCD")) true)
choose_transport-IsRight_example =
    choose_transport-IsRight user (some (codes "0xABCD")) (codes "0xABCD") true refl

transport_run : choose_transport (some user) (some (codes "0xABCD")) true ≡ userop (codes "0xAbCd")
unfolding choose_transport lower ◌===◌
transport_run = refl

-- A wallet on the manager's account, whose receipts have a status; `none` is a pending transaction.
abbrev provider : Option Receipt → Wallet
provider receipt = record {
  accounts = λ trace. returned (some (codes "0xeoa" ∷ []));
  sign = λ message address. returned (codes "0x51");
  send = λ from to call. returned (codes "0xhash");
  receipt = λ trace hash. returned receipt;
}

abbrev pub mined_receipt : Receipt
mined_receipt = record { status = some (codes "0x1") }

wait_for_mined-IsWait_example :
    IsWait
      (provider (some mined_receipt))
      (codes "0xhash")
      (tab 0 none).trace
      ((tab 0 none).now + patience_ms)
      (wait_for_mined (provider (some mined_receipt)) (codes "0xhash") (tab 0 none)).0
      (wait_for_mined (provider (some mined_receipt)) (codes "0xhash") (tab 0 none)).1
wait_for_mined-IsWait_example =
    wait_for_mined-IsWait (provider (some mined_receipt)) (codes "0xhash") (tab 0 none)

abbrev pub console : Option Receipt → Console
console receipt = record {
  sdk = sdk;
  viem = record {
    Args = Str;
    encode_group = λ f args. returned args;
    encode_create = λ nodes threshold delay issuers keys. returned (codes "0x01");
  };
  host = host 200;
  json = codec;
  provider = some (provider receipt);
  use_paymaster = true;
}

abbrev call : GroupCall (console (some mined_receipt))
call = record {
  network = network;
  user = user;
  group_address = some (codes "0xGROUP");
  function_name = invite_node;
  args = codes "0x1234";
  sponsored = none;
}

abbrev sent : Result (Option OnchainProof) × World
sent = submit_group_call (console (some mined_receipt)) (wallet (codes "0xEOA")) call (tab 0 none)

sent_run : sent ≡ (ok (some (transaction_hash (codes "0xhash"))), sent.1)
unfolding submit_group_call send_group_call ◌===◌ lower wait_for_receipt wait_for_mined settle polls
    ask
sent_run = refl

submit_group_call-IsProof_example :
    IsProof
      (console (some mined_receipt))
      (truthy call.group_address)
      (wallet (codes "0xEOA"))
      call
      (tab 0 none)
      sent.1
      (some (transaction_hash (codes "0xhash")))
submit_group_call-IsProof_example =
    submit_group_call-IsProof (console (some mined_receipt)) (wallet (codes "0xEOA")) call
      (tab 0 none) sent.1 (some (transaction_hash (codes "0xhash"))) sent_run

accounts_differ : to_lower (codes "0xeoa") === to_lower (codes "0xother") ≡ false
unfolding ◌===◌ lower
accounts_differ = refl

abbrev request : SignCallRequest
request = record {
  network = network;
  user = user;
  dest = codes "0xGROUP";
  call_data = codes "0x1234";
  sponsored = none;
}

abbrev signed : Result SignedUserOp × World
signed = sign_call (console none) request (full_tab 0)

signed_call_run : signed ≡ (ok built_op, signed.1)
unfolding sign_call load_signing_session build_signed_user_op build_steps draft_step stub_step
    estimate_step sponsor_step sign_step sign_with_bootstrap_group serialize big_int pack_pair
    to_string16
signed_call_run = refl
