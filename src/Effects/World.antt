-- ===== src/Effects/World.antt =====
-- The browser tab as the code of web/lib sees it: `sessionStorage`, the clock, and the calls that
-- leave the tab, in order. A method is a function of the tab's state.
use signet_platform.Prelude.{
  ℕ, ◌+◌, Bool, ◌&&◌, Option, none, some, List, [], ◌∷◌, ◌++◌, if◌then◌else◌,
}
use signet_platform.Prelude.{◌==◌, length}
use signet_platform.Prelude.Text.{Str}
use signet_platform.Effects.Failure.{Failure, storage_refused, Result, ok, err}
use signet_platform.Effects.Json.{Json}
use signet_platform.Effects.Stages.{DeployStage, ProvisionStage, LoginStage}

-- The keys of `sessionStorage`, each for the constant that names it.
pub data Slot : Type 0 where
  priv_key pub_key claims_key group_key identity_key node_key nonce_key : Slot

abbrev pub slot_code : Slot → ℕ
slot_code priv_key = 0
slot_code pub_key = 1
slot_code claims_key = 2
slot_code group_key = 3
slot_code identity_key = 4
slot_code node_key = 5
slot_code nonce_key = 6

abbrev pub Cells : Type 0
Cells = Slot → Option Str

abbrev pub update : Cells → Slot → Option Str → Cells
update cells k v j = if slot_code j == slot_code k then v else cells j

pub record FetchRequest : Type 0 where
  pub method : Str
  pub url : Str
  pub headers : List (Str × Str)
  pub body : Option Json

-- A call that leaves the tab, with the values that the code chose for it.
pub data Event : Type 0 where
  deploy_stage : DeployStage → Event
  provision_stage : ProvisionStage → Event
  login_stage : LoginStage → Event
  -- `onSignedIn`, with the token, and `router.replace`
  signed_in navigated : Str → Event
  -- a function of the SDK, of its bundler client, of viem or of the browser, by its name
  called : Str → Event
  fetched : FetchRequest → Event
  -- an EIP-1193 request without parameters of the code's own, by its method
  wallet_request : Str → Event
  -- `personal_sign` of a message by an address
  wallet_signed : Str → Str → Event
  -- `eth_sendTransaction`: the sender, the target and the call's data
  sent_transaction : Str → Str → Str → Event
  receipt_asked : Str → Event
  -- `setTimeout` for so many milliseconds
  slept : ℕ → Event

pub record World : Type 0 where
  pub cells : Cells
  -- Private mode: when `readable` is false every access throws; `accepts` says which writes pass.
  pub readable : Bool
  pub accepts : Cells → Slot → Str → Bool
  -- The session token of `localStorage`, and whether that storage lets itself be used.
  pub token : Option Str
  pub token_open : Bool
  -- `Date.now()`, in milliseconds, and how long the call takes that follows so many others
  pub now : ℕ
  pub latency : ℕ → ℕ
  pub trace : List Event

abbrev pub Exec {ℓ} : Type ℓ → Type ℓ
Exec A = World → Result A × World

module _ {A B : Type 0} where
  abbrev pub continue : Result A → (A → Exec B) → Exec B
  continue (ok a) f w = f a w
  continue (err e) f w = (err e, w)

  infixl 5 ◌>>=◌ ◌>>◌
  abbrev pub ◌>>=◌ : Exec A → (A → Exec B) → Exec B
  ◌>>=◌ m f w = let (r, w') = m w in continue r f w'

  abbrev pub ◌>>◌ : Exec A → Exec B → Exec B
  m >> n = m >>= λ _. n

module _ {A : Type 0} where
  abbrev pub pure : A → Exec A
  pure a w = (ok a, w)

  abbrev pub raise : Failure → Exec A
  raise e w = (err e, w)

  abbrev pub lift : Result A → Exec A
  lift r w = (r, w)

  -- `try { m } catch { h }`
  abbrev pub recover : Result A → Exec A → Exec A
  recover (ok a) h w = (ok a, w)
  recover (err e) h w = h w

  abbrev pub try_catch : Exec A → Exec A → Exec A
  try_catch m h w = let (r, w') = m w in recover r h w'

abbrev pub emit : Event → Exec (Unit {0})
emit e w = (ok tt, record w { trace = w.trace ++ e ∷ [] })

-- A call that is awaited: the clock goes on while it runs.
abbrev pub await : Event → Exec (Unit {0})
await e w =
    (ok tt, record w { trace = w.trace ++ e ∷ []; now = w.now + w.latency (length w.trace) })

-- `await new Promise((r) => setTimeout(r, ms))`: the timer fires after `ms` milliseconds or later.
abbrev pub sleep : ℕ → Exec (Unit {0})
sleep ms w = (
  ok tt,
  record w { trace = w.trace ++ slept ms ∷ []; now = w.now + (ms + w.latency (length w.trace)) },
)

-- `sessionStorage.getItem`, `setItem` and `removeItem`
abbrev pub get_item : Slot → Exec (Option Str)
get_item k w = if w.readable then (ok (w.cells k), w) else (err storage_refused, w)

abbrev pub set_item : Slot → Str → Exec (Unit {0})
set_item k v w =
    if w.readable && w.accepts w.cells k v
    then (ok tt, record w { cells = update w.cells k (some v) })
    else (err storage_refused, w)

abbrev pub remove_item : Slot → Exec (Unit {0})
remove_item k w =
    if w.readable
    then (ok tt, record w { cells = update w.cells k none })
    else (err storage_refused, w)
