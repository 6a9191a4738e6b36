-- ===== src/Tests/Routes.antt =====
-- Tests of the route handlers.
use signet_platform.Prelude.{◌≡◌, refl, inr, none, some, List, [], ◌∷◌}
use signet_platform.Prelude.Text.{Str, codes}
use signet_platform.Effects.Failure.{Answer, returned, threw}
use signet_platform.Effects.Json.{Json, str, obj, Fields, end, field}
use signet_platform.Routes.Token as Token
use signet_platform.Routes.Token.{exchange_token, exchange_token-AgreeOnShown, with_secret, member}
use signet_platform.Routes.Bundler.{
  Server, proxy, configured, keyed_call, bundler_reply, proxy-keyed_call,
}

abbrev web : Token.Server
web = record {
  client_id = some (codes "client");
  client_secret = none;
  google = λ form. threw (codes "offline");
  string_of = λ j. elim j [ str s ↦ s | _ ↦ [] ];
}

abbrev request : Json
request = obj (
    field (codes "code") (str (codes "c1")) (
      field (codes "code_verifier") (str (codes "v1"))
        (field (codes "redirect_uri") (str (codes "https://signet.dev/auth/callback")) end)))

abbrev tokens : Str → Fields
tokens access =
    field (codes "access_token") (str access) (field (codes "id_token") (str (codes "jwt")) end)

abbrev google : Str → List (Str × Str) → Answer Json
google access form = returned (obj (tokens access))

exchange_token-AgreeOnShown_example :
    exchange_token (with_secret web (codes "s1") (google (codes "a1"))) (returned request)
    ≡ exchange_token (with_secret web (codes "s2") (google (codes "a2"))) (returned request)
unfolding member signet_platform.Effects.Json.get_field signet_platform.Effects.Json.with_members
exchange_token-AgreeOnShown_example =
    exchange_token-AgreeOnShown web (codes "client") (codes "s1") (codes "s2") (google (codes "a1"))
      (google (codes "a2")) request (tokens (codes "a1")) (tokens (codes "a2")) refl refl refl refl
      refl refl (refl, refl, refl)

abbrev server : Server
server = record {
  bundler_url = none;
  api_key = some (codes "k1");
  bundler = λ call. returned (record { status = 200; text = call.url });
}

-- An address with a slash at its end, and a path that the browser names.
proxy-keyed_call_example :
    proxy (configured server (codes "http://b/")) (some (codes "/v1/prove")) (codes "{}") ≡ (
      keyed_call (codes "http://b") (codes "k1") (some (codes "/v1/prove")) (codes "{}") ∷ [],
      bundler_reply (
          server.bundler
            (keyed_call (codes "http://b") (codes "k1") (some (codes "/v1/prove")) (codes "{}"))),
    )
proxy-keyed_call_example =
    proxy-keyed_call server (codes "http://") b'b' (codes "k1") (some (codes "/v1/prove"))
      (codes "{}") (codes "http://b/") refl refl (inr refl)

-- A path that begins with no slash names another host than the configured one.
other_host :
    (keyed_call (codes "http://b") (codes "k1") (some (codes "@c/v1/prove")) (codes "{}")).url
    ≡ codes "http://b@c/v1/prove"
other_host = refl
