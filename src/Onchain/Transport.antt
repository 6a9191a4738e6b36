-- ===== src/Onchain/Transport.antt =====
-- web/lib/onchain.ts: `chooseTransport`.
use signet_platform.Prelude.{
  ◌≡◌, refl, ap, sym, subst, ◌∙◌, ◌⊎◌, inl, inr, Bool, true, false, Option, none, some, ◌++◌,
  if◌then◌else◌, Bool-cases, Option-cases,
}
use signet_platform.Prelude.Text.{Str, codes, truthy, to_lower, ◌===◌, eq_iff}
use signet_platform.Types.Account.{User}

pub data Transport : Type 0 where
  userop : Str → Transport
  wallet : Str → Transport
  nothing : Str → Transport

-- `account && manager.toLowerCase() === account.toLowerCase()`, with the account
unfoldable pub matching : Option Str → Str → Option Str
matching account manager = elim (truthy account) [
  | none ↦ none
  | some a ↦ if to_lower manager === to_lower a then some a else none
]

abbrev no_session : Str
no_session =
    codes
      "This group is managed by your Signet wallet, but this tab has no signing session. Sign in again."

abbrev other_manager : Str → Str
other_manager manager =
    codes "This group is managed by "
    ++ (manager
        ++ codes
            ", which is not an account you signed in with. Sign in with that account to change it.")

by_manager : User → Str → Bool → Transport
unfolding matching
by_manager user manager can_sign = elim (matching user.smart_account_address manager) [
  | some smart ↦ if can_sign then userop smart else nothing no_session
  | none ↦ elim (matching user.account_address manager) [
    | some eoa ↦ wallet eoa
    | none ↦ nothing (other_manager manager)
  ]
]

unfoldable pub choose_transport : Option User → Option Str → Bool → Transport
unfolding by_manager
choose_transport none manager can_sign = nothing (codes "You are not signed in.")
choose_transport (some user) manager can_sign = elim (truthy manager) [
  | none ↦ nothing (codes "This app has no signing group yet.")
  | some m ↦ by_manager user m can_sign
]

-- The account is there and is the manager, whatever the case of its letters.
abbrev pub IsManager : Option Str → Str → Str → Type 0
IsManager account manager a = (truthy account ≡ some a) × (to_lower manager ≡ to_lower a)

-- What each choice promises for a user and a manager.
abbrev pub IsRight : User → Str → Bool → Transport → Type 0
IsRight user manager can_sign (userop a) =
    IsManager user.smart_account_address manager a × (can_sign ≡ true)
IsRight user manager can_sign (wallet a) =
    IsManager user.account_address manager a
    × ((b : Str) → ¬ (IsManager user.smart_account_address manager b))
IsRight user manager can_sign (nothing reason) =
    ((b : Str) × IsManager user.smart_account_address manager b × (can_sign ≡ false))
    ⊎ ((b : Str)
        → (¬ (IsManager user.smart_account_address manager b))
          × (¬ (IsManager user.account_address manager b)))

matching-some :
    (account : Option Str) (m a : Str) → matching account m ≡ some a → IsManager account m a
unfolding matching
matching-some account m a e = elim (Option-cases (truthy account)) [
  | inl f ↦ cc (simp (f, matching) at e)
  | inr (x, f) ↦ elim (Bool-cases (to_lower m === to_lower x)) [
    | inl same ↦
        let found : x ≡ a = cc (simp (f, same, matching) at e) in
        (f ∙ ap some found, (eq_iff _ _).0 same ∙ ap to_lower found)
    | inr other ↦ cc (simp (f, other, matching) at e)
  ]
]

matching-none :
    (account : Option Str) (m : Str)
    → matching account m ≡ none
    → (b : Str) → ¬ (IsManager account m b)
unfolding matching
matching-none account m e b (f, same) =
    cc (simp (f, (eq_iff (to_lower m) (to_lower b)).1 same, matching) at e)

by_manager-IsRight :
    (user : User) (m : Str) (can_sign : Bool) → IsRight user m can_sign (by_manager user m can_sign)
unfolding by_manager
by_manager-IsRight user m can_sign = elim (Option-cases (matching user.smart_account_address m)) [
  | inl other ↦ elim (Option-cases (matching user.account_address m)) [
    | inl neither ↦
        chosen (nothing (other_manager m)) (rw (other, by_manager) (rw (neither, by_manager) refl))
          (inr λ b. (matching-none _ m other b, matching-none _ m neither b))
    | inr (eoa, own) ↦
        chosen (wallet eoa) (rw (other, by_manager) (rw (own, by_manager) refl))
          (matching-some _ m eoa own, matching-none _ m other)
  ]
  | inr (smart, same) ↦ elim (Bool-cases can_sign) [
    | inl can ↦
        chosen (userop smart) (rw (same, by_manager) (rw can)) (matching-some _ m smart same, can)
    | inr cannot ↦
        chosen (nothing no_session) (rw (same, by_manager) (rw cannot))
          (inl (smart, matching-some _ m smart same, cannot))
  ]
]
  where
    chosen :
        (t : Transport)
        → by_manager user m can_sign ≡ t
        → IsRight user m can_sign t
        → IsRight user m can_sign (by_manager user m can_sign)
    chosen t e h = subst (IsRight user m can_sign) (sym e) h

-- For a signed-in user and a group with a manager: a user operation is chosen only from the smart
-- wallet that is the manager, and only if the tab can sign; the browser wallet only for the user's
-- own account that is the manager, when the smart wallet is not; and nothing is chosen only if the
-- smart wallet is the manager and the tab cannot sign, or neither account is the manager.
pub choose_transport-IsRight :
    (user : User) (manager : Option Str) (m : Str) (can_sign : Bool)
    → truthy manager ≡ some m
    → IsRight user m can_sign (choose_transport (some user) manager can_sign)
unfolding choose_transport
choose_transport-IsRight user manager m can_sign h =
    subst (IsRight user m can_sign) (sym (rw (h, choose_transport)))
      (by_manager-IsRight user m can_sign)
