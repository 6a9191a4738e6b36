-- ===== src/Console/SignOut.antt =====
-- web/providers/SessionProvider.tsx: `signOut`, with what it leaves in the tab and in the console.
use signet_platform.Prelude.{◌≡◌, refl, Bool, true, false, none, some, ◌++◌}
use signet_platform.Prelude.Text.{Str, codes}
use signet_platform.Effects.Failure.{Result, ok, err}
use signet_platform.Effects.Json.{Json}
use signet_platform.Effects.World.{World, Cells}
use signet_platform.Effects.Host.{Host}
use signet_platform.SessionKey.{Codec, clear_signing_session, load_signing_session}
use signet_platform.Api.{store_token, stored_token}
use signet_platform.Api.Query.{Urls}
use signet_platform.Api.Endpoints.{Endpoint, call_of}
use signet_platform.Api.AppEndpoints.{send}
use signet_platform.Console.{Console, sign_out}
use signet_platform.Console.Shell.{nothing, shown_at, redirect}

-- The writes of the `finally` block to the tab; neither throws.
unfoldable pub forget_session : World → World
unfolding store_token clear_signing_session
forget_session w = (clear_signing_session (store_token none w).1).1

-- What the caller is given once `api.logout()` has ended: its error is thrown on.
abbrev pub after_logout : Console → Result Json × World → Result (Unit {0}) × (World × Console)
after_logout c (ok answer, w) = (ok tt, (forget_session w, sign_out c))
after_logout c (err e, w) = (err e, (forget_session w, sign_out c))

unfoldable pub sign_out_steps :
    Host → Urls → World → Console → Result (Unit {0}) × (World × Console)
unfolding forget_session
sign_out_steps host urls w c = after_logout c (send host (call_of urls Endpoint.logout) w)

-- No session is read from storage that has been cleared, or that cannot be read.
load_after :
    (json : Codec) (cells : Cells) (readable : Bool) (w : World)
    → (load_signing_session json
        (clear_signing_session (record w { cells = cells; readable = readable })).1).0
      ≡ ok none
unfolding load_signing_session clear_signing_session
load_after json cells true w = refl
load_after json cells false w = refl

load-forget_session :
    (json : Codec) (w : World) → (load_signing_session json (forget_session w)).0 ≡ ok none
unfolding forget_session
load-forget_session json w = let v = (store_token none w).1 in load_after json v.cells v.readable v

-- The token is gone, or cannot be read.
token_after :
    (open_now readable : Bool) (w : World)
    → (stored_token (forget_session (record w { token_open = open_now; readable = readable }))).0
      ≡ ok none
unfolding stored_token forget_session clear_signing_session store_token
token_after true true w = refl
token_after true false w = refl
token_after false true w = refl
token_after false false w = refl

abbrev pub IsEnded : Result Json → Result (Unit {0}) → Type 0
IsEnded (ok answer) r = r ≡ ok tt
IsEnded (err e) r = r ≡ err e

module _ (host : Host) (urls : Urls) (json : Codec) (w : World) (c : Console) where
  -- What signing out leaves: neither a signing session nor a token is read from the tab, and the
  -- console's layout shows no page, wherever the developer is, and redirects to the login page with
  -- the way back.
  abbrev pub IsSignedOut : World × Console → Type 0
  IsSignedOut (w', c') =
      ((load_signing_session json w').0 ≡ ok none)
      × ((stored_token w').0 ≡ ok none)
      × (c'.user ≡ none)
      × (shown_at c'.status ≡ nothing)
      × ((pathname : Str)
          → redirect urls pathname c' ≡ some (codes "/login?next=" ++ urls.component pathname))

  -- Whatever the API answers to the logout, signing out leaves the tab without a signing session and
  -- without a token, and the console's layout without a page, redirecting to the login page with the
  -- way back; it throws the error of the logout, and no other.
  pub sign_out_steps-IsSignedOut :
      IsSignedOut (sign_out_steps host urls w c).1
      × IsEnded (send host (call_of urls Endpoint.logout) w).0 (sign_out_steps host urls w c).0
  unfolding sign_out_steps sign_out shown_at redirect
  sign_out_steps-IsSignedOut = by_answer (send host (call_of urls Endpoint.logout) w)
    where
      left : (v : World) → IsSignedOut (forget_session v, sign_out c)
      left v = (
        load-forget_session json v,
        token_after v.token_open v.readable v,
        refl,
        refl,
        λ pathname. refl,
      )

      by_answer :
          (r : Result Json × World)
          → IsSignedOut (after_logout c r).1 × IsEnded r.0 (after_logout c r).0
      by_answer (ok answer, v) = (left v, refl)
      by_answer (err e, v) = (left v, refl)
