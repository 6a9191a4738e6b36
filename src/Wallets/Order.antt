-- ===== src/Wallets/Order.antt =====
-- web/app/(console)/apps/[appId]/wallets/page.tsx: the order in which a key's state is changed.
use signet_platform.Prelude.{◌≡◌, Option, none, [], ◌∷◌, ◌++◌}
use signet_platform.Prelude.Text.{Str}
use signet_platform.Types.GroupView.{GroupView}
use signet_platform.Effects.Failure.{Failure, ok, err}
use signet_platform.Effects.Json.{Json}
use signet_platform.Effects.World.{World}
use signet_platform.Effects.Host.{Host}
use signet_platform.SessionKey.{Codec}
use signet_platform.Api.Query.{Urls}
use signet_platform.Wallets.Asked.{HasAccepted, HasRefused, asks_platform, toast_for}
use signet_platform.Wallets.{Key, KeyState, Page}

module _ (host : Host) (json : Codec) (urls : Urls) where
  -- How a change of a key's state ends, from the tab `w` and the page `page` on.
  pub data IsOrdered (app_id : Str) (group : Option GroupView) (key : Key) (state : KeyState)
      (w : World) (page : Page) : World × Page → Type 0 where
    refused_by_nodes :
        (e : Failure) (v : World)
        → HasRefused host json group key state e w v
        → IsOrdered app_id group key state w page (v, page)
    refused_by_platform :
        (answer : Json) (e : Failure) (v u : World)
        → HasAccepted host json group key state answer w v
        → asks_platform host urls app_id key state v ≡ (err e, u)
        → IsOrdered app_id group key state w page (u, page)
    accepted :
        (answer noted : Json) (v u w' : World)
        → HasAccepted host json group key state answer w v
        → asks_platform host urls app_id key state v ≡ (ok noted, u)
        → IsOrdered app_id group key state w page
            (w', record page { toasts = page.toasts ++ toast_for state ∷ []; detail = none })
