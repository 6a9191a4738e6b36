-- ===== src/Onchain/Hooks.antt =====
-- web/lib/onchain.ts: what the hooks `useCanSignOnchain` and `useSigningSessionMinutesLeft` read once
-- the page is mounted.
use signet_platform.Prelude.{
  ℕ, ◌+◌, ◌-◌, ◌/◌, Bool, true, false, Option, none, some, leb, if◌then◌else◌,
}
use signet_platform.Prelude.Text.{truthy}
use signet_platform.Types.Account.{User}
use signet_platform.Effects.Failure.{ok}
use signet_platform.Effects.World.{Exec, ◌>>=◌, pure}
use signet_platform.SessionKey.{
  Codec, load_signing_session, signing_session_expires_at, at, invalid,
}

-- `!!user?.smart_account_address && loadSigningSession() !== null`
unfoldable pub can_sign_onchain : Codec → Option User → Exec Bool
can_sign_onchain json user =
    elim (truthy (elim user [ none ↦ none | some u ↦ u.smart_account_address ])) [
      | none ↦ pure false
      | some a ↦ (do
        found ← load_signing_session json
        pure (elim found [ none ↦ false | some s ↦ true ]))
    ]

-- The minutes that are shown; an expiry that is no time shows as `NaN`.
pub data Minutes : Type 0 where
  no_session not_a_number : Minutes
  left : ℕ → Minutes

-- `Math.max(0, Math.round(ms / 60_000))` of the time from `now` to `ms`.
unfoldable pub minutes_between : ℕ → ℕ → ℕ
minutes_between now ms = if leb ms now then 0 else (ms - now + 30_000) / 60_000

unfoldable pub minutes_left : Codec → Exec Minutes
unfolding minutes_between
minutes_left json = do
  found ← load_signing_session json
  now ← λ w. (ok w.now, w)
  pure (elim found [
    | none ↦ no_session
    | some s ↦ elim (signing_session_expires_at s.claims) [
      | none ↦ no_session
      | some e ↦ elim e [ at ms ↦ left (minutes_between now ms) | invalid ↦ not_a_number ]
    ]
  ])
