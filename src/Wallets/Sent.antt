-- ===== src/Wallets/Sent.antt =====
-- web/app/(console)/apps/[appId]/wallets/page.tsx: what becomes of the keys that are sent.
use signet_platform.Prelude.{◌≡◌, ap, sym, ◌∙◌, ◌⊎◌, inl, inr, true, Option, none, some}
use signet_platform.Prelude.Text.{Str}
use signet_platform.Effects.Failure.{Failure, Result, ok, err}
use signet_platform.Effects.Json.{Json, with_members}
use signet_platform.Effects.World.{World, Exec, lift, pure, ◌>>=◌}
use signet_platform.Effects.Host.{Host}
use signet_platform.Effects.Laws.{>>=-eq-ok, >>=-eq-err, pure-eq-ok}
use signet_platform.Api.Query.{Urls}
use signet_platform.Api.AppEndpoints.{AppEndpoint, app_call, send}
use signet_platform.Onchain.Call.Accepted.{lift-with_members}
use signet_platform.Wallets.{send_keys}

always_some :
    (r : Result Json) (v w' : World) → (lift r >>= λ c. pure (some c)) v ≡ (ok none, w') → ⊥
always_some (ok a) v w' h = cc h
always_some (err e) v w' h = cc h

-- What is sent is answered, or fails.
pub always :
    (host : Host) (urls : Urls) (app_id : Str) (keys : Json) (u w' : World)
    → send_keys host urls app_id keys true u ≡ (ok none, w')
    → ⊥
unfolding send_keys
always host urls app_id keys u w' h =
    let (answer, v, p, rest) =
      >>=-eq-ok (send host (app_call urls app_id (AppEndpoint.sync_keys keys))) next u none w' h in
    always_some (with_members answer) v w' rest
  where
    next : Json → Exec (Option Json)
    next a = lift (with_members a) >>= λ c. pure (some c)

module _ (host : Host) (urls : Urls) (app_id : Str) (keys : Json) where
  -- The platform is sent these keys.
  abbrev pub asks_sync : Exec Json
  asks_sync = send host (app_call urls app_id (AppEndpoint.sync_keys keys))

  -- It refused them, or its answer could not be read.
  abbrev pub IsUnsynced : Failure → World → World → Type 0
  IsUnsynced e u w' =
      (asks_sync u ≡ (err e, w'))
      ⊎ ((answer : Json) × (asks_sync u ≡ (ok answer, w')) × (with_members answer ≡ err e))

  abbrev read_on : Json → Exec (Option Json)
  read_on answer = lift (with_members answer) >>= λ c. pure (some c)

  pub send_keys-asked :
      (answer : Json) (u w' : World)
      → send_keys host urls app_id keys true u ≡ (ok (some answer), w')
      → asks_sync u ≡ (ok answer, w')
  unfolding send_keys
  send_keys-asked answer u w' h =
      let (given, v, p, rest) = >>=-eq-ok asks_sync read_on u (some answer) w' h in
      let (counted, x, q, rest₂) =
        >>=-eq-ok (lift (with_members given)) _ v (some answer) w' rest in
      let (same, left) = pure-eq-ok (some counted) (some answer) x w' rest₂ in
      let read : given ≡ counted = lift-with_members given counted v x q in
      let there : counted ≡ answer = cc same in
      let kept : x ≡ v = sym (ap (λ (r : Result Json × World). r.1) q) in
      p ∙ (λ i. (ok ((read ∙ there) i), sym (left ∙ kept) i))

  pub send_keys-IsUnsynced :
      (e : Failure) (u w' : World)
      → send_keys host urls app_id keys true u ≡ (err e, w')
      → IsUnsynced e u w'
  unfolding send_keys
  send_keys-IsUnsynced e u w' h = elim (>>=-eq-err asks_sync read_on u e w' h) [
    | inl p ↦ inl p
    | inr (answer, v, p, rest) ↦
        elim (>>=-eq-err (lift (with_members answer)) (λ c. pure (some c)) v e w' rest) [
          | inl q ↦ inr (
            answer,
            p ∙ ap (λ y. (ok answer, y)) (ap (λ (r : Result Json × World). r.1) q),
            ap (λ (r : Result Json × World). r.0) q,
          )
          | inr (counted, x, q, never) ↦ absurd (clash never)
        ]
  ]
    where
      clash :
          {c : Json} {x : World}
          → ◌≡◌ {A = Result (Option Json) × World} (ok (some c), x) (err e, w')
          → ⊥
      clash g = cc g
