-- ===== src/Console/Refresh.antt =====
-- web/providers/SessionProvider.tsx: the requests of `refresh`. What it shows is `apply` and
-- `refused`.
use signet_platform.Prelude.{◌==◌, Bool, false, none, if◌then◌else◌}
use signet_platform.Effects.Failure.{Failure, Result, ok, err, api_error}
use signet_platform.Effects.World.{Exec, raise}
use signet_platform.Effects.Host.{Host}
use signet_platform.Api.{store_token}
use signet_platform.Api.Query.{Urls}
use signet_platform.Api.Endpoints.{Endpoint, call_of}
use signet_platform.Api.AppEndpoints.{send}

-- `err instanceof ApiError && err.status === 401`
unfoldable pub is_unauthorized : Failure → Bool
is_unauthorized (api_error status message) = status == 401
is_unauthorized _ = false

-- The `catch` of `refresh`. The request for the public configuration is not awaited, and its error
-- is dropped.
unfoldable pub on_refusal : Failure → Exec (Unit {0})
unfolding is_unauthorized store_token
on_refusal e = if is_unauthorized e then store_token none else raise e

abbrev pub settled : {A : Type 0} → Result A → Exec (Unit {0})
settled (ok a) w = (ok tt, w)
settled (err e) w = on_refusal e w

unfoldable pub refresh_session : Host → Urls → Exec (Unit {0})
unfolding on_refusal
refresh_session host urls w = let (r, w') = send host (call_of urls Endpoint.me) w in settled r w'
