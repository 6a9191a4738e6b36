-- ===== src/Tests/Webhooks.antt =====
-- Tests of the page of the webhooks.
use signet_platform.Prelude.{◌≡◌, refl, some, List, [], ◌∷◌, All}
use signet_platform.Prelude.Text.{codes, ◌===◌}
use signet_platform.Prelude.Space.{trim}
use signet_platform.Webhooks.{
  Input, add_endpoint, types_url, clicks_box, clicks_create, created, opened, creation, steps,
}
use signet_platform.Webhooks.Subscribed.{IsCreation, Mirrors, boxes_of, steps-IsCreation}
use signet_platform.Tests.GroupPage.{urls}

-- A box is clicked three times, another one twice, and the endpoint is created.
abbrev filled : List Input
filled =
    add_endpoint
    ∷ types_url (codes "https://acme.dev/hook ")
    ∷ clicks_box (codes "key.created")
    ∷ clicks_box (codes "key.disabled")
    ∷ clicks_box (codes "key.created")
    ∷ clicks_box (codes "key.created")
    ∷ clicks_box (codes "key.disabled")
    ∷ clicks_create
    ∷ []

steps-IsCreation_example :
    All (IsCreation urls (codes "a1")) (steps urls (codes "a1") filled opened).creations
    × Mirrors
        (steps urls (codes "a1") filled opened).selected
        (boxes_of urls (codes "a1") filled opened [])
steps-IsCreation_example = steps-IsCreation urls (codes "a1") filled

created_run :
    (steps urls (codes "a1") filled opened).creations
    ≡ creation urls (codes "a1") (codes "https://acme.dev/hook") (codes "key.created" ∷ []) ∷ []
unfolding steps opened creation trim ◌===◌
created_run = refl

secret_run :
    (steps urls
      (codes "a1")
      (created (some (codes "whsec")) ∷ [])
      (steps urls (codes "a1") filled opened)).secret
    ≡ some (codes "whsec")
unfolding steps opened trim ◌===◌
secret_run = refl
