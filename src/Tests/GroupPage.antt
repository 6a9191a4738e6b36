-- ===== src/Tests/GroupPage.antt =====
-- Tests of the page of a signing group.
use signet_platform.Prelude.{◌≡◌, refl, true, none, some, []}
use signet_platform.Prelude.Text.{Str, codes}
use signet_platform.Types.Group.{NodeOperator, independent}
use signet_platform.Types.GroupView.{App, development, live, GroupNode, NodeStatus, removing}
use signet_platform.Api.Query.{Urls}
use signet_platform.Abi.{invite_node}
use signet_platform.Onchain.Transport.{wallet}
use signet_platform.GroupPage.Members.{can_execute}
use signet_platform.GroupPage.Calls.{Page, call, request_of}
use signet_platform.GroupPage.Reported.{IsReported, call-IsReported}
use signet_platform.Tests.Samples.{user, network, tab}
use signet_platform.Tests.Format.{dates}
use signet_platform.Tests.Onchain.{console, mined_receipt}

abbrev pub app : App
app = record {
  id = codes "a1";
  org_id = codes "o1";
  name = codes "Acme";
  slug = codes "acme";
  description = [];
  environment = development;
  status = live;
  chain_id = 31_337;
  group_address = some (codes "0xGROUP");
  group_public_key = none;
  threshold = some 2;
  node_count = some 3;
  is_operational = some true;
  logo_url = none;
  website_url = none;
  deployed_at = none;
  synced_at = none;
  created_at = codes "2026-01-01";
  updated_at = codes "2026-01-01";
}

abbrev pub urls : Urls
urls = record { component = λ s. s; form = λ ps. [] }

abbrev page : Page
page = record { pending_action = some (codes "Invite"); toasts = [] }

call-IsReported_example :
    IsReported
      (console (some mined_receipt))
      urls
      (λ e. [])
      (codes "a1")
      (codes "Invite")
      (wallet (codes "0xEOA"))
      (request_of
        (console (some mined_receipt))
        urls
        (λ e. [])
        network
        user
        app
        invite_node
        (codes "0x1234"))
      (tab 0 none)
      page
      (call
        (console (some mined_receipt))
        urls
        (λ e. [])
        (some network)
        (some user)
        (some app)
        (codes "a1")
        (wallet (codes "0xEOA"))
        (codes "Invite")
        invite_node
        (codes "0x1234")
        (tab 0 none, page))
call-IsReported_example =
    call-IsReported (console (some mined_receipt)) urls (λ e. []) network user app (codes "0xGROUP")
      (codes "a1") (codes "Invite") (wallet (codes "0xEOA")) invite_node (codes "0x1234")
      (tab 0 none) page refl

abbrev node_at : NodeStatus → Str → GroupNode
node_at status address = record {
  address = address;
  status = status;
  execute_after = some (codes "2026-01-01");
  removal_initiator = none;
  joined_at = none;
  operator = none;
}

abbrev pub operator : Str → NodeOperator
operator address = record {
  address = address;
  name = codes "Node";
  slug = codes "node";
  description = [];
  website_url = none;
  logo_url = none;
  api_url = none;
  region = codes "eu";
  jurisdiction = codes "DE";
  category = independent;
  verified = true;
  is_open = none;
  registered_at = none;
  operator_address = none;
  group_count = 0;
  synced_at = none;
  health = none;
}

executable : can_execute dates 100_000_000 none (node_at removing (codes "0xa")) ≡ true
unfolding can_execute
executable = refl
