-- ===== src/Tests/Credentials.antt =====
-- Tests of the credentials page.
use signet_platform.Prelude.{◌≡◌, refl, ◌⊎◌, true, false, none, some, [], ◌∷◌}
use signet_platform.Prelude.Text.{codes}
use signet_platform.Prelude.Hex.{bytes_to_hex}
use signet_platform.Effects.Failure.{Failure, ok, err}
use signet_platform.Effects.Json.{str, obj, get_field, field, end}
use signet_platform.Api.Query.{Urls}
use signet_platform.Onchain.Transport.{wallet}
use signet_platform.Onchain.Call.{transaction_hash}
use signet_platform.Credentials.{Context, create_auth_key, key_credential}
use signet_platform.Types.App.{active}
use signet_platform.Onchain.Call.{Console}
use signet_platform.Credentials.{Credential, KeyPair, auth_key}
use signet_platform.Credentials.Page.{Page, Dialog, make_key}
use signet_platform.Credentials.Registered.{routed, IsAdded, make_key-IsAdded}
use signet_platform.Credentials.Secrecy.{create_auth_key-same_tab}
use signet_platform.Tests.Samples.{user, network, tab}
use signet_platform.Tests.Onchain.{console, mined_receipt}

abbrev urls : Urls
urls = record { component = λ s. s; form = λ ps. [] }

abbrev context : Context
context = record {
  network = some network;
  user = some user;
  group_address = some (codes "0xGROUP");
  sponsored = true;
  transport = wallet (codes "0xEOA");
}

create_auth_key-same_tab_example :
    ((create_auth_key
        (console (some mined_receipt))
        urls
        (λ s. s)
        (codes "a1")
        context
        (codes "CI")
        (record { private_key = 1 ∷ []; public_key = 2 ∷ 3 ∷ [] })
        (tab 0 none)).1
      ≡ (create_auth_key
          (console (some mined_receipt))
          urls
          (λ s. s)
          (codes "a1")
          context
          (codes "CI")
          (record { private_key = 9 ∷ []; public_key = 2 ∷ 3 ∷ [] })
          (tab 0 none)).1)
    × (((create_auth_key
            (console (some mined_receipt))
            urls
            (λ s. s)
            (codes "a1")
            context
            (codes "CI")
            (record { private_key = 1 ∷ []; public_key = 2 ∷ 3 ∷ [] })
            (tab 0 none)).0
          ≡ ok (bytes_to_hex (1 ∷ [])))
        ⊎ ((e : Failure) × ((create_auth_key
                (console (some mined_receipt))
                urls
                (λ s. s)
                (codes "a1")
                context
                (codes "CI")
                (record { private_key = 1 ∷ []; public_key = 2 ∷ 3 ∷ [] })
                (tab 0 none)).0
              ≡ err e)))
create_auth_key-same_tab_example =
    create_auth_key-same_tab (console (some mined_receipt)) urls (λ s. s) (codes "a1") context
      (codes "CI") (1 ∷ []) (9 ∷ []) (2 ∷ 3 ∷ []) (tab 0 none)

-- The proof of a new key stands whole under `user_op`, also when it is a transaction.
nested_proof :
    get_field
      (codes "user_op")
      (key_credential (codes "CI") (codes "0x02") (some (transaction_hash (codes "0x7a"))))
    ≡ some (obj (field (codes "transaction_hash") (str (codes "0x7a")) end))
unfolding get_field key_credential
nested_proof = refl

abbrev connected : Console
connected = console (some mined_receipt)

abbrev blank : Dialog
blank = record { open_now = true; label = codes "CI"; error = none }

abbrev page : Page
page = record {
  secret_dialog = blank;
  key_dialog = blank;
  revealed = none;
  revoke_error = none;
  toasts = [];
}

-- A key that is registered with the group.
abbrev registered_key : Credential
registered_key = record {
  id = codes "c1";
  kind = auth_key;
  key_hash = some (codes "0x7a");
  onchain_status = active;
}

abbrev drawn : KeyPair
drawn = record { private_key = 1 ∷ []; public_key = 2 ∷ 3 ∷ [] }

make_key-IsAdded_example :
    ((routed (wallet (codes "0xEOA")) ≡ true)
      × IsAdded connected urls
          (λ s. s)
          network
          user
          (some (codes "0xGROUP"))
          true
          (wallet (codes "0xEOA"))
          (codes "a1")
          (tab 0 none)
          (codes "CI")
          drawn
          page
          (make_key connected urls (λ s. s) (codes "a1") context drawn (tab 0 none, page)))
    ⊎ ((routed (wallet (codes "0xEOA")) ≡ false)
        × (make_key connected urls (λ s. s) (codes "a1") context drawn (tab 0 none, page)
            ≡ (tab 0 none, page)))
make_key-IsAdded_example =
    make_key-IsAdded connected urls (λ s. s) network user (some (codes "0xGROUP")) true
      (wallet (codes "0xEOA")) (codes "a1") (tab 0 none) drawn page
