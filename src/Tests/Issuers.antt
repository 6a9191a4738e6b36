-- ===== src/Tests/Issuers.antt =====
-- Tests of the page of the login methods.
use signet_platform.Prelude.{◌≡◌, refl, true, false, none, some, [], ◌∷◌}
use signet_platform.Prelude.Text.{Str, codes, is_empty}
use signet_platform.Prelude.Space.{trim}
use signet_platform.Abi.{add_issuer, remove_issuer}
use signet_platform.Onchain.Transport.{wallet}
use signet_platform.Credentials.{Context}
use signet_platform.Onchain.Call.{Console}
use signet_platform.Issuers.{Page, Dialog, issuer_call, remove, add, client_ids}
use signet_platform.Credentials.Told.{signed_in_context}
use signet_platform.Issuers.Trusted.{IsRemoved, IsAdded, remove-IsTrusted, add-IsTrusted}
use signet_platform.Wizard.Deploy.{Draft}
use signet_platform.Tests.Samples.{user, network, tab}
use signet_platform.Tests.Onchain.{console, mined_receipt}
use signet_platform.Tests.GroupPage.{urls}

abbrev typed : Str
typed = codes " c1 ,, c2, "

abbrev draft : Draft
draft = record {
  name = codes "Acme";
  description = [];
  selected = [];
  threshold = 0;
  removal_delay = 0;
  issuers = [];
  client_ids = λ i. some typed;
}

two_ids : client_ids typed ≡ codes "c1" ∷ codes "c2" ∷ []
unfolding client_ids trim
two_ids = refl

abbrev page : Page
page = record { busy = some (codes "i1"); remove_error = none; toasts = [] }

abbrev dialog : Dialog
dialog = record {
  open_now = true;
  issuer = codes "https://accounts.google.com ";
  client_ids_text = typed;
  add_error = none;
  toasts = [];
}

abbrev context : Context
context = signed_in_context network user (some (codes "0xGROUP")) true (wallet (codes "0xEOA"))

abbrev connected : Console
connected = console (some mined_receipt)

remove-IsTrusted_example :
    IsRemoved connected urls
      (wallet (codes "0xEOA"))
      (codes "a1")
      (issuer_call connected context network user remove_issuer (codes "https://i"))
      (codes "i1")
      (tab 0 none)
      page
      (remove connected urls
        (λ s ids. s)
        (λ s. s)
        (codes "a1")
        context
        (codes "i1")
        (codes "https://i")
        (tab 0 none, page))
remove-IsTrusted_example =
    remove-IsTrusted connected urls (λ s ids. s) (λ s. s) network user (some (codes "0xGROUP")) true
      (wallet (codes "0xEOA")) (codes "a1") (tab 0 none) (codes "i1") (codes "https://i") page

issuer_typed : is_empty (trim dialog.issuer) ≡ false
unfolding trim
issuer_typed = refl

add-IsTrusted_example :
    IsAdded connected urls
      (wallet (codes "0xEOA"))
      (codes "a1")
      (issuer_call connected context network user add_issuer (trim dialog.issuer))
      (trim dialog.issuer)
      (client_ids typed)
      (tab 0 none)
      dialog
      (add connected urls (λ s ids. s) (λ s. s) (codes "a1") context (tab 0 none, dialog))
add-IsTrusted_example =
    add-IsTrusted connected urls (λ s ids. s) (λ s. s) network user (some (codes "0xGROUP")) true
      (wallet (codes "0xEOA")) (codes "a1") (tab 0 none) dialog issuer_typed
