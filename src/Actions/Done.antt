-- ===== src/Actions/Done.antt =====
-- When a page of the console says how an action went.
use signet_platform.Prelude.{
  if◌then◌else◌, none, some, ◌++◌, ◌≡◌, refl, sym, ap, subst, ◌⊎◌, inl, inr, true, false, List, [],
  ◌∷◌, Bool-cases,
}
use signet_platform.Effects.Failure.{Failure, Result, ok, err}
use signet_platform.Effects.Json.{Json}
use signet_platform.Effects.World.{World, Exec, recover, continue, pure, lift}
use signet_platform.Effects.Host.{Host}
use signet_platform.Effects.Laws.{>>=-cases, >>=-eq-err}
use signet_platform.Api.Query.{Urls}
use signet_platform.Api.Endpoints.{Call, Endpoint, call_of}
use signet_platform.Api.{store_token}
use signet_platform.Console.Refresh.{is_unauthorized, on_refusal, settled, refresh_session}
use signet_platform.Api.AppEndpoints.{send}
use signet_platform.Actions.Toasts.{Toast}
use signet_platform.Actions.Plans.{PageAction, Reread, query, session, Plan, plan_of}
use signet_platform.Actions.{is_offered, Page, after_action, read_again, conclude, plan_steps, act}

module _ (host : Host) (urls : Urls) where
  -- From the tab `w` on, one of the things that are read again is the session, and the platform refused
  -- it with `e`, which does not say that the token is not accepted.
  pub data IsUnread : List Reread → World → Failure → Type 0 where
    here :
        (more : List Reread) (w u : World) (e : Failure)
        → send host (call_of urls Endpoint.me) w ≡ (err e, u)
        → is_unauthorized e ≡ false
        → IsUnread (session ∷ more) w e
    after_session :
        (more : List Reread) (w u : World) (e : Failure)
        → refresh_session host urls w ≡ (ok tt, u)
        → IsUnread more u e
        → IsUnread (session ∷ more) w e
    after_query :
        (c : Call) (more : List Reread) (w : World) (e : Failure)
        → IsUnread more (send host c w).1 e
        → IsUnread (query c ∷ more) w e

  refused-me :
      (r : Result Json) (v u : World) (e : Failure)
      → settled r v ≡ (err e, u)
      → (r ≡ err e) × (is_unauthorized e ≡ false)
  unfolding on_refusal store_token
  refused-me (ok j) v u e h = cc h
  refused-me (err x) v u e h = elim (Bool-cases (is_unauthorized x)) [
    | inl over ↦ absurd (clash (simp over at h))
    | inr other ↦
        let same : x ≡ e = cc (simp other at h) in
        (ap err same, subst (λ y. is_unauthorized y ≡ false) same other)
  ]
    where
      clash : {t : World} → ◌≡◌ {A = Result (Unit {0}) × World} (ok tt, t) (err e, u) → ⊥
      clash g = cc g

  refresh_session-refused :
      (w u : World) (e : Failure)
      → refresh_session host urls w ≡ (err e, u)
      → (v : World) × (send host (call_of urls Endpoint.me) w ≡ (err e, v))
        × (is_unauthorized e ≡ false)
  unfolding refresh_session
  refresh_session-refused w u e h =
      let answer = send host (call_of urls Endpoint.me) w in
      let (refused, other) = refused-me answer.0 answer.1 u e h in
      (answer.1, (λ i. (refused i, answer.1)), other)

  read_again-IsUnread :
      (rs : List Reread) (w w' : World) (e : Failure)
      → read_again host urls rs w ≡ (err e, w')
      → IsUnread rs w e
  unfolding read_again
  read_again-IsUnread [] w w' e h = cc h
  read_again-IsUnread (session ∷ more) w w' e h =
      elim (>>=-eq-err (refresh_session host urls) (λ _. read_again host urls more) w e w' h) [
        | inl p ↦
            let (v, refused, other) = refresh_session-refused w w' e p in
            here more w v e refused other
        | inr (done, u, p, rest) ↦ after_session more w u e p (read_again-IsUnread more u w' e rest)
      ]
  read_again-IsUnread (query c ∷ more) w w' e h = after_query c more w e (
      read_again-IsUnread more (send host c w).1 w' e
        (queried (send host c w).0 (send host c w).1 h))
    where
      queried :
          (r : Result Json) (v : World)
          → (let (q, x) = continue r (λ _. pure tt) v in
              continue
                (recover q (pure tt) x).0
                (λ _. read_again host urls more)
                (recover q (pure tt) x).1)
            ≡ (err e, w')
          → read_again host urls more v ≡ (err e, w')
      queried (ok j) v g = g
      queried (err y) v g = g

  -- What the page shows of an action that failed, and of one that succeeded.
  abbrev pub failed : Plan → Page → Failure → Page
  failed plan page e = record page { error = if plan.shows_error then some e else page.error }

  abbrev pub succeeded : Plan → Page → Toast → Page
  succeeded plan page t = record {
    error = if plan.shows_error then none else page.error;
    toasts = page.toasts ++ t ∷ [];
  }

  -- How an action with this plan ends, from the tab `w` and the page `page` on.
  pub data IsDone (plan : Plan) (w : World) (page : Page) : World × Page → Type 0 where
    refused :
        (e : Failure) (v : World)
        → send host plan.request w ≡ (err e, v)
        → IsDone plan w page (v, failed plan page e)
    cut_short :
        (answer : Json) (e : Failure) (v w' : World)
        → send host plan.request w ≡ (ok answer, v)
        → IsUnread plan.rereads v e ⊎ (plan.toast answer ≡ err e)
        → IsDone plan w page (w', failed plan page e)
    done :
        (answer : Json) (t : Toast) (v w' : World)
        → send host plan.request w ≡ (ok answer, v)
        → plan.toast answer ≡ ok t
        → IsDone plan w page (w', succeeded plan page t)

  plan_steps-IsDone :
      (plan : Plan) (w : World) (page : Page)
      → IsDone plan w page (after_action plan page (plan_steps host urls plan w))
  unfolding plan_steps conclude
  plan_steps-IsDone plan w page =
      elim (>>=-cases (send host plan.request) (conclude host urls plan) w) [
        | inl (e, v, p, q) ↦ ended q (refused e v p)
        | inr (answer, v, p, q) ↦ ended q (concluded answer v p)
      ]
    where
      ended :
          {r : Result Toast × World}
          → plan_steps host urls plan w ≡ r
          → IsDone plan w page (after_action plan page r)
          → IsDone plan w page (after_action plan page (plan_steps host urls plan w))
      ended e h = subst (λ r. IsDone plan w page (after_action plan page r)) (sym e) h

      last : Json → Unit {0} → Exec Toast
      last answer u = lift (plan.toast answer)

      told :
          (answer : Json) (v u : World)
          → send host plan.request w ≡ (ok answer, v)
          → (r : Result Toast) → plan.toast answer ≡ r
          → IsDone plan w page (after_action plan page (r, u))
      told answer v u p (ok t) e = done answer t v u p e
      told answer v u p (err x) e = cut_short answer x v u p (inr e)

      unread :
          (answer : Json) (e : Failure) (v u : World)
          → read_again host urls plan.rereads v ≡ (err e, u)
          → IsUnread plan.rereads v e
      unread answer e v u r = read_again-IsUnread plan.rereads v u e r

      concluded :
          (answer : Json) (v : World)
          → send host plan.request w ≡ (ok answer, v)
          → IsDone plan w page (after_action plan page (conclude host urls plan answer v))
      concluded answer v p = elim (>>=-cases (read_again host urls plan.rereads) (last answer) v) [
        | inl (e, u, r, s) ↦
            subst (λ x. IsDone plan w page (after_action plan page x)) (sym s)
              (cut_short answer e v u p (inl (unread answer e v u r)))
        | inr (x, u, r, s) ↦
            subst (λ y. IsDone plan w page (after_action plan page y)) (sym s)
              (told answer v u p (plan.toast answer) refl)
      ]

  -- An action that is offered makes its one request. The page says how the action went, in the toast
  -- for the platform's answer, only after the platform has accepted the request. It is said to have
  -- failed, or is not spoken of where the page does not read its error, if the platform refused, or
  -- after it accepted only if the platform refused to give the session again, or the answer could not
  -- be read. An action that is not offered does nothing.
  pub act-IsDone :
      (a : PageAction) (w : World) (page : Page)
      → ((is_offered a ≡ true) × IsDone (plan_of urls a) w page (act host urls a (w, page)))
        ⊎ ((is_offered a ≡ false) × (act host urls a (w, page) ≡ (w, page)))
  unfolding act
  act-IsDone a w page = elim (Bool-cases (is_offered a)) [
    | inl offered ↦ inl (offered, rw (offered, act) (plan_steps-IsDone (plan_of urls a) w page))
    | inr hidden ↦ inr (hidden, rw (hidden, act) refl)
  ]
