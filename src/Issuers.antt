-- ===== src/Issuers.antt =====
-- web/app/(console)/apps/[appId]/configuration/login-methods/page.tsx: the issuers that an app's
-- group trusts. The names of the stages that a dialog shows are left out.
pub mod ClientIds
pub mod Trusted
use signet_platform.Prelude.{
  Bool, ◌==◌, ◌&&◌, not, Option, none, some, List, [], ◌∷◌, ◌++◌, map, filter, if◌then◌else◌,
}
use signet_platform.Prelude.Text.{Str, codes, truthy, is_empty}
use signet_platform.Prelude.Space.{trim}
use signet_platform.Prelude.Commas.{comma_list}
use signet_platform.Effects.Failure.{Failure, Result, ok, err}
use signet_platform.Effects.Json.{
  Json, str, arr, obj, items_of, Fields, end, field, string_member, with_members,
}
use signet_platform.Effects.World.{World, Exec, ◌>>=◌, ◌>>◌, pure, lift, try_catch}
use signet_platform.Effects.Host.{Host}
use signet_platform.Types.Account.{User, NetworkConfig}
use signet_platform.Api.Query.{Urls}
use signet_platform.Api.Endpoints.{text_field}
use signet_platform.Api.AppEndpoints.{AppEndpoint, app_call, send}
use signet_platform.Abi.{GroupFunction, add_issuer, remove_issuer}
use signet_platform.Onchain.Call.{Console, GroupCall, OnchainProof, submit_group_call}
use signet_platform.Onchain.Body.{proof_fields}
use signet_platform.Credentials.{Context}

-- `clientIds.split(",").map((c) => c.trim()).filter(Boolean)`
unfoldable pub client_ids : Str → List Str
unfolding comma_list
client_ids text = comma_list text

-- `user_op: proof`, which leaves `undefined` out
unfoldable pub issuer_fields : Str → List Str → Option OnchainProof → Fields
unfolding proof_fields
issuer_fields issuer ids proof = text_field (codes "issuer") issuer (
    field (codes "client_ids") (arr (items_of ids))
      (elim proof [ none ↦ end | some p ↦ field (codes "user_op") (obj (proof_fields p)) end ]))

-- The page: the error that it shows of a removal, the issuer that is being removed, and its toasts,
-- each with its detail.
pub record Page : Type 0 where
  pub busy : Option Str
  pub remove_error : Option Failure
  pub toasts : List (Str × Option Str)

-- The dialog that adds an issuer.
pub record Dialog : Type 0 where
  pub open_now : Bool
  pub issuer : Str
  pub client_ids_text : Str
  pub add_error : Option Failure
  pub toasts : List (Str × Option Str)

-- `result.transaction_hash`, as a condition
abbrev pub hash_of : Json → Option Str
hash_of answer = truthy (string_member (codes "transaction_hash") answer)

unfoldable pub removed_toast : Json → Str × Option Str
unfolding string_member
removed_toast answer = (
  codes "Removed",
  elim (hash_of answer) [
    | none ↦ none
    | some h ↦ some (codes "Your operators no longer trust it.")
  ],
)

unfoldable pub added_toast : Json → Str × Option Str
unfolding string_member
added_toast answer = (
  codes "Issuer added",
  some (elim (hash_of answer) [
    | none ↦ codes "It will be written to your group when you deploy it."
    | some h ↦ codes "Your operators trust it now."
  ]),
)

abbrev pub after_remove : Page → Result Json × World → World × Page
after_remove page (ok answer, w) = (
  w,
  record page {
    busy = none;
    remove_error = none;
    toasts = page.toasts ++ removed_toast answer ∷ [];
  },
)
after_remove page (err e, w) = (w, record page { busy = none; remove_error = some e })

abbrev pub after_add : Dialog → Result Json × World → World × Dialog
after_add d (ok answer, w) = (
  w,
  record d {
    open_now = Bool.false;
    issuer = [];
    client_ids_text = [];
    add_error = none;
    toasts = d.toasts ++ added_toast answer ∷ [];
  },
)
after_add d (err e, w) = (w, record d { add_error = some e })

module _ (c : Console) where
  abbrev pub issuer_call :
      Context → NetworkConfig → User → GroupFunction → c.viem.Args → GroupCall c
  issuer_call x network user f args = record {
    network = network;
    user = user;
    group_address = x.group_address;
    function_name = f;
    args = args;
    sponsored = some x.sponsored;
  }

  -- `user && network ? await submitGroupCall(…) : undefined`
  unfoldable pub proof_of :
      Context
      → Option NetworkConfig
      → Option User
      → GroupFunction
      → c.viem.Args
      → Exec (Option OnchainProof)
  proof_of x (some network) (some user) f args =
      submit_group_call c x.transport (issuer_call x network user f args)
  proof_of x _ _ f args = pure none

module _ (host : Host) (urls : Urls) where
  unfoldable pub removal : Str → Str → Option OnchainProof → Exec Json
  removal app_id id proof = send host (
      app_call urls app_id (
        AppEndpoint.remove_issuer id (elim proof [ none ↦ none | some p ↦ some (proof_fields p) ])))

  -- `issuers.refresh()`, whose failure the hook keeps to itself.
  unfoldable pub refresh_issuers : Str → Exec (Unit {0})
  refresh_issuers app_id =
      try_catch (send host (app_call urls app_id AppEndpoint.issuers) >> pure tt) (pure tt)

  unfoldable pub addition : Str → Str → List Str → Option OnchainProof → Exec Json
  unfolding issuer_fields
  addition app_id issuer ids proof =
      send host (app_call urls app_id (AppEndpoint.save_issuer (issuer_fields issuer ids proof)))

-- `issuer_args` makes the arguments of addIssuer from an issuer and its client IDs, and `hash_args`
-- those of removeIssuer from an issuer, by the hash of its text.
module _ (c : Console) (urls : Urls) (issuer_args : Str → List Str → c.viem.Args)
    (hash_args : Str → c.viem.Args) where
  open c use {host}

  unfoldable pub remove_steps : Str → Context → Str → Str → Exec Json
  unfolding proof_of removal refresh_issuers
  remove_steps app_id x id issuer = do
    proof ← proof_of c x x.network x.user remove_issuer (hash_args issuer)
    result ← removal host urls app_id id proof
    refresh_issuers host urls app_id
    lift (with_members result)

  -- `remove`
  unfoldable pub remove : Str → Context → Str → Str → World × Page → World × Page
  unfolding remove_steps removed_toast
  remove app_id x id issuer (w, page) = after_remove page (remove_steps app_id x id issuer w)

  unfoldable pub add_steps : Str → Context → Str → List Str → Exec Json
  unfolding proof_of addition
  add_steps app_id x issuer ids = do
    proof ← proof_of c x x.network x.user add_issuer (issuer_args issuer ids)
    result ← addition host urls app_id issuer ids proof
    lift (with_members result)

  -- `add`, up to the request that reads the list again. The button wants an issuer.
  unfoldable pub add : Str → Context → World × Dialog → World × Dialog
  unfolding add_steps client_ids added_toast trim
  add app_id x (w, d) =
      if is_empty (trim d.issuer)
      then (w, d)
      else after_add d (add_steps app_id x (trim d.issuer) (client_ids d.client_ids_text) w)
