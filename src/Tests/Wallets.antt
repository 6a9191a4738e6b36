-- ===== src/Tests/Wallets.antt =====
-- Tests of the page of an app's keys.
use signet_platform.Prelude.{◌≡◌, refl, true, false, none, some, [], ◌∷◌}
use signet_platform.Prelude.Text.{codes}
use signet_platform.Types.GroupView.{GroupView, active}
use signet_platform.Effects.Json.{arr, nil}
use signet_platform.Wallets.{Key, KeyState, disabled, Page, set_status, sync, key_params, scoped}
use signet_platform.Wallets.Inventory.{IsConfirmed, sync-IsConfirmed}
use signet_platform.Tests.Samples.{codec, host, full_tab, tab}
use signet_platform.Tests.GroupPage.{app, urls, operator}

abbrev key : Key
key = record { key_id = codes "k1"; curve = codes "ecdsa_secp256k1" }

-- A group with one node, whose operator publishes an address.
abbrev view : GroupView
view = record {
  app = app;
  nodes =
      record {
        address = codes "0x01";
        status = active;
        execute_after = none;
        removal_initiator = none;
        joined_at = none;
        operator =
            some (record (operator (codes "0x01")) { api_url = some (codes "https://node1") });
      }
      ∷ [];
  onchain = none;
  sync_error = none;
}

abbrev page : Page
page = record {
  detail = some key;
  sync_open = true;
  raw = codes "[]";
  sync_error = none;
  toasts = [];
}

-- The page says that the key is disabled, and closes its details.
disabled_run :
    (set_status
      (host 200)
      codec
      urls
      (codes "a1")
      []
      (some view)
      key
      disabled
      (full_tab 0, page)).1.toasts
    ≡ codes "Key disabled" ∷ []
unfolding set_status signet_platform.Api.AppEndpoints.send signet_platform.Api.Uploads.node_proxy
    signet_platform.SessionKey.load_signing_session signet_platform.Wallets.first_url
disabled_run = refl

-- A node that refuses leaves the page as it was.
refused_run :
    (set_status (host 500) codec urls (codes "a1") [] (some view) key disabled (full_tab 0, page)).1
    ≡ page
unfolding set_status signet_platform.Api.AppEndpoints.send signet_platform.Api.Uploads.node_proxy
    signet_platform.SessionKey.load_signing_session signet_platform.Wallets.first_url
refused_run = refl

-- A pasted empty list, for an app with three keys, and a user who does not confirm.
sync-IsConfirmed_example :
    IsConfirmed
      (record (host 200) { parse_json = λ s. some (arr nil) })
      codec
      urls
      (λ trace. false)
      (λ j. codes "Synced 0 keys")
      (codes "a1")
      none
      none
      3
      (tab 0 none)
      page
      (sync
        (record (host 200) { parse_json = λ s. some (arr nil) })
        codec
        urls
        (λ trace. false)
        (λ j. codes "Synced 0 keys")
        (codes "a1")
        none
        none
        3
        (tab 0 none, page))
sync-IsConfirmed_example =
    sync-IsConfirmed (record (host 200) { parse_json = λ s. some (arr nil) }) codec urls
      (λ trace. false) (λ j. codes "Synced 0 keys") (codes "a1") none none 3 (tab 0 none) page
