-- ===== src/Credentials/Page.antt =====
-- web/app/(console)/apps/[appId]/credentials/page.tsx: what the page and its two dialogs show of the
-- credentials that are created and revoked.
use signet_platform.Prelude.{
  Bool, true, false, Option, none, some, List, [], ◌∷◌, ◌++◌, if◌then◌else◌,
}
use signet_platform.Prelude.Text.{Str, codes, truthy, is_empty}
use signet_platform.Effects.Failure.{Failure, Result, ok, err}
use signet_platform.Effects.Json.{Json, string_member}
use signet_platform.Effects.World.{World}
use signet_platform.Api.Query.{Urls}
use signet_platform.Onchain.Transport.{Transport, nothing}
use signet_platform.Onchain.Call.{Console}
use signet_platform.Credentials.{
  Credential, Context, KeyPair, revoke_steps, create_secret, create_auth_key,
}

-- What is shown once: a title, and a secret or a private key.
pub record Revealed : Type 0 where
  pub title : Str
  pub value : Str

-- A dialog with its label and its error.
pub record Dialog : Type 0 where
  pub open_now : Bool
  pub label : Str
  pub error : Option Failure

pub record Page : Type 0 where
  pub secret_dialog : Dialog
  pub key_dialog : Dialog
  pub revealed : Option Revealed
  pub revoke_error : Option Failure
  pub toasts : List (Str × Option Str)

-- A dialog whose credential was created.
abbrev pub closed : Dialog
closed = record { open_now = false; label = []; error = none }

unfoldable pub revoked_toast : Json → Str × Option Str
unfolding string_member
revoked_toast result = (
  codes "Revoked",
  elim (truthy (string_member (codes "transaction_hash") result)) [
    | none ↦ none
    | some h ↦ some (codes "Your operators no longer accept it.")
  ],
)

-- `label || fallback`
abbrev pub titled : Str → Str → Str → Revealed
titled label fallback value = record {
  title = if is_empty label then fallback else label;
  value = value;
}

abbrev pub after_revoke : Page → Result Json × World → World × Page
after_revoke page (ok result, w) =
    (w, record page { revoke_error = none; toasts = page.toasts ++ revoked_toast result ∷ [] })
after_revoke page (err e, w) = (w, record page { revoke_error = some e })

abbrev pub after_secret : Page → Result Str × World → World × Page
after_secret page (ok secret, w) = (
  w,
  record page {
    secret_dialog = closed;
    revealed = some (titled page.secret_dialog.label (codes "Application secret") secret);
  },
)
after_secret page (err e, w) =
    (w, record page { secret_dialog = record page.secret_dialog { error = some e } })

abbrev pub after_key : Page → Result Str × World → World × Page
after_key page (ok private_key, w) = (
  w,
  record page {
    key_dialog = closed;
    revealed = some (titled page.key_dialog.label (codes "Application key") private_key);
    toasts = page.toasts ++ (codes "Authorization key added to your group", none) ∷ [];
  },
)
after_key page (err e, w) =
    (w, record page { key_dialog = record page.key_dialog { error = some e } })

-- `transport.kind === "none"`, for which the button cannot be used
abbrev pub has_route : Transport → Bool
has_route (nothing reason) = false
has_route _ = true

-- The requests that read the list again after a creation are not awaited, and are left out.
module _ (c : Console) (urls : Urls) (arguments : Str → c.viem.Args) where
  -- `revoke`
  unfoldable pub revoke : Str → Context → Credential → World × Page → World × Page
  unfolding revoke_steps revoked_toast
  revoke app_id x credential (w, page) =
      after_revoke page (revoke_steps c urls arguments app_id x credential w)

  -- `create` of the dialog for a secret
  unfoldable pub make_secret : Str → World × Page → World × Page
  unfolding create_secret
  make_secret app_id (w, page) =
      after_secret page (create_secret c urls arguments app_id page.secret_dialog.label w)

  -- `create` of the dialog for an authorization key, with the key pair that is drawn
  unfoldable pub make_key : Str → Context → KeyPair → World × Page → World × Page
  unfolding create_auth_key
  make_key app_id x key (w, page) =
      if has_route x.transport
      then after_key page (create_auth_key c urls arguments app_id x page.key_dialog.label key w)
      else (w, page)
