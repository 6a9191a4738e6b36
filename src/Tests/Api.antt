-- ===== src/Tests/Api.antt =====
-- Tests of the table of endpoints.
use signet_platform.Prelude.{◌≡◌, refl, [], ◌∷◌, ◌++◌}
use signet_platform.Prelude.Text.{codes}
use signet_platform.Api.Query.{Urls, Param}
use signet_platform.Api.AppEndpoints.{AppEndpoint, app_call}

abbrev urls : Urls
urls = record {
  component = λ s. s;
  form = λ ps. elim ps [ [] ↦ [] | p ∷ rest ↦ p.0 ++ (61 ∷ p.1) ];
}

abbrev key_search : AppEndpoint
key_search =
    AppEndpoint.keys ((codes "curve", Param.missing) ∷ (codes "q", Param.text (codes "abc")) ∷ [])

key_search_path : (app_call urls (codes "a1") key_search).path ≡ codes "/v1/apps/a1/keys?q=abc"
unfolding app_call
key_search_path = refl
