-- ===== src/Wallets/Inventory.antt =====
-- web/app/(console)/apps/[appId]/wallets/page.tsx: what a synchronization sends, and when.
use signet_platform.Prelude.{
  ℕ, ◌≡◌, refl, sym, subst, ◌∙◌, ◌⊎◌, inl, inr, Bool, true, false, ◌&&◌, ltb, Option, none, some,
  List, [], ◌∷◌, ◌++◌, Bool-cases, arith,
}
use signet_platform.Prelude.Text.{Str, codes}
use signet_platform.Effects.Failure.{Failure, Result, ok, err}
use signet_platform.Effects.Json.{Json, arr, nil}
use signet_platform.Effects.World.{World, Event, Exec, called, await, continue}
use signet_platform.Effects.Host.{Host}
use signet_platform.Effects.Laws.{>>=-cases}
use signet_platform.SessionKey.{Codec}
use signet_platform.Api.Query.{Urls}
use signet_platform.Wallets.Given.{is_none}
use signet_platform.Wallets.Sent.{
  asks_sync, IsUnsynced, send_keys-asked, send_keys-IsUnsynced, always,
}
use signet_platform.Wallets.Found.{IsFound, inventory-IsFound}
use signet_platform.Wallets.{
  Page, allowed, inventory, send_keys, sync_steps, sync_keys, sync, after_sync,
}

-- An empty inventory, for an app that the page shows keys of
abbrev pub empties : Json → ℕ → Bool
empties keys existing = is_none keys && ltb 0 existing

-- The tab after the question.
abbrev pub question : World → World
question w = (await (called (codes "window.confirm")) w).1

-- The keys may be sent from the tab `u` on: they leave no shown key out of account, or the user has
-- confirmed that they may.
abbrev pub IsAllowed : (List Event → Bool) → Json → ℕ → World → World → Type 0
IsAllowed confirms keys existing v u =
    ((keys ≡ arr nil → existing ≡ 0) × (u ≡ v))
    ⊎ ((empties keys existing ≡ true) × (confirms v.trace ≡ true) × (u ≡ question v))

none_shown :
    (keys : Json) (existing : ℕ) → empties keys existing ≡ false → keys ≡ arr nil → existing ≡ 0
unfolding is_none
none_shown keys existing full e =
    let zero_left : empties (arr nil) existing ≡ false =
      subst (λ k. empties k existing ≡ false) e full in
    ground arith

allowed-cases :
    (confirms : List Event → Bool) (keys : Json) (existing : ℕ) (v : World)
    → ((empties keys existing ≡ true)
        × (confirms v.trace ≡ false)
        × (allowed confirms keys existing v ≡ (ok false, question v)))
      ⊎ ((u : World) × IsAllowed confirms keys existing v u
          × (allowed confirms keys existing v ≡ (ok true, u)))
unfolding allowed
allowed-cases confirms keys existing v = elim (Bool-cases (empties keys existing)) [
  | inr full ↦ inr (v, inl (none_shown keys existing full, refl), rw (full, allowed) refl)
  | inl empty ↦ elim (Bool-cases (confirms v.trace)) [
    | inl agreed ↦ inr (question v, inr (empty, agreed, refl), rw (empty, allowed) (rw agreed refl))
    | inr declined ↦ inl (empty, declined, rw (empty, allowed) (rw declined refl))
  ]
]

module _ (host : Host) (json : Codec) (urls : Urls) (confirms : List Event → Bool) where
  -- How a synchronization ends, from the tab `w` and the page `page` on.
  pub data IsConfirmed (count : Json → Str) (app_id : Str) (url group : Option Str) (existing : ℕ)
      (w : World) (page : Page) : World × Page → Type 0 where
    no_inventory :
        (e : Failure) (v : World)
        → inventory host json page.raw url group w ≡ (err e, v)
        → IsConfirmed count app_id url group existing w page
            (v, record page { sync_error = some e })
    declined :
        (keys : Json) (v : World)
        → IsFound host json page.raw url group w keys v
        → empties keys existing ≡ true
        → confirms v.trace ≡ false
        → IsConfirmed count app_id url group existing w page
            (question v, record page { sync_error = none })
    refused :
        (keys : Json) (e : Failure) (v u w' : World)
        → IsFound host json page.raw url group w keys v
        → IsAllowed confirms keys existing v u
        → IsUnsynced host urls app_id keys e u w'
        → IsConfirmed count app_id url group existing w page
            (w', record page { sync_error = some e })
    synced :
        (keys answer : Json) (v u w' : World)
        → IsFound host json page.raw url group w keys v
        → IsAllowed confirms keys existing v u
        → asks_sync host urls app_id keys u ≡ (ok answer, w')
        → IsConfirmed count app_id url group existing w page (
          w',
          record page {
            toasts = page.toasts ++ count answer ∷ [];
            raw = [];
            sync_open = false;
            sync_error = none;
          },
        )

  -- A synchronization sends the platform the keys that were pasted, as a list or as the member
  -- `keys` of an object, or those that a node answered, asked from a tab with a session; an answer
  -- that is no list counts as an empty one, and so does a text of another value or an object
  -- without keys. If the keys are an empty list while the page shows keys, nothing is sent unless
  -- the user confirms it; and the dialog is closed, with a toast, only after the platform has
  -- accepted the keys. When it fails the dialog keeps its text and shows the error.
  pub sync-IsConfirmed :
      (count : Json → Str) (app_id : Str) (url group : Option Str) (existing : ℕ) (w : World)
      (page : Page)
      → IsConfirmed count app_id url group existing w page
          (sync host json urls confirms count app_id url group existing (w, page))
  unfolding sync sync_steps sync_keys
  sync-IsConfirmed count app_id url group existing w page =
      elim (>>=-cases (inventory host json page.raw url group) rest w) [
        | inl (e, v, p, q) ↦ ended q (no_inventory e v p)
        | inr (keys, v, p, q) ↦ elim (allowed-cases confirms keys existing v) [
          | inl (empty, no_answer, s) ↦
              ended (q ∙ goes_on keys v s) (declined keys v (found keys v p) empty no_answer)
          | inr (u, may, s) ↦
              sent keys v u p may (q ∙ goes_on keys v s) (send_keys host urls app_id keys true u)
                refl
        ]
      ]
    where
      found :
          (keys : Json) (v : World)
          → inventory host json page.raw url group w ≡ (ok keys, v)
          → IsFound host json page.raw url group w keys v
      found keys v p = inventory-IsFound host json page.raw url group w v keys p

      rest : Json → Exec (Option Json)
      rest = sync_keys host json urls confirms app_id existing

      goes_on :
          (keys : Json) (v : World) {b : Bool} {u : World}
          → allowed confirms keys existing v ≡ (ok b, u)
          → rest keys v ≡ send_keys host urls app_id keys b u
      goes_on keys v s = λ i. continue (s i).0 (send_keys host urls app_id keys) (s i).1

      ended :
          {x : Result (Option Json) × World}
          → sync_steps host json urls confirms app_id page.raw url group existing w ≡ x
          → IsConfirmed count app_id url group existing w page (after_sync count page x)
          → IsConfirmed count app_id url group existing w page
              (sync host json urls confirms count app_id url group existing (w, page))
      ended e h =
          subst (λ y. IsConfirmed count app_id url group existing w page (after_sync count page y))
            (sym e) h

      sent :
          (keys : Json) (v u : World)
          → inventory host json page.raw url group w ≡ (ok keys, v)
          → IsAllowed confirms keys existing v u
          → sync_steps host json urls confirms app_id page.raw url group existing w
            ≡ send_keys host urls app_id keys true u
          → (r : Result (Option Json) × World) → send_keys host urls app_id keys true u ≡ r
          → IsConfirmed count app_id url group existing w page
              (sync host json urls confirms count app_id url group existing (w, page))
      sent keys v u p may q (err e, w') r = ended (q ∙ r) (
          refused keys e v u w' (found keys v p) may
            (send_keys-IsUnsynced host urls app_id keys e u w' r))
      sent keys v u p may q (ok (some answer), w') r = ended (q ∙ r) (
          synced keys answer v u w' (found keys v p) may
            (send_keys-asked host urls app_id keys answer u w' r))
      sent keys v u p may q (ok none, w') r = absurd (always host urls app_id keys u w' r)
