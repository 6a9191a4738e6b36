-- ===== src/Nav.antt =====
-- web/components/console/nav.ts: the console's navigation.
pub mod Active
use signet_platform.Prelude.{
  Bool, true, false, ◌||◌, List, [], ◌∷◌, ◌++◌, if◌then◌else◌, Option, none, some,
}
use signet_platform.Prelude.Text.{Str, codes, ◌===◌, starts_with}

pub record NavItem : Type 0 where
  pub href : Str
  pub label : Str
  pub exact : Bool

pub record NavGroup : Type 0 where
  pub title : Option Str
  pub items : List NavItem

abbrev item : Str → Str → NavItem
item href label = record { href = href; label = label; exact = false }

abbrev exact_item : Str → Str → NavItem
exact_item href label = record { href = href; label = label; exact = true }

unfoldable pub app_nav : Str → List NavGroup
app_nav app_id =
    let base : Str = codes "/apps/" ++ app_id in
    record {
      title = none;
      items =
          exact_item base (codes "Overview")
          ∷ item (base ++ codes "/users") (codes "Users")
          ∷ item (base ++ codes "/wallets") (codes "Wallets")
          ∷ item (base ++ codes "/analytics") (codes "Analytics")
          ∷ item (base ++ codes "/logs") (codes "Activity")
          ∷ [];
    }
    ∷ record {
      title = some (codes "Signing group");
      items =
          item (base ++ codes "/group") (codes "Operators & threshold")
          ∷ item (base ++ codes "/credentials") (codes "Keys & credentials")
          ∷ [];
    }
    ∷ record {
      title = some (codes "Configuration");
      items =
          item (base ++ codes "/configuration/login-methods") (codes "Login methods")
          ∷ item (base ++ codes "/configuration/branding") (codes "Branding")
          ∷ item (base ++ codes "/configuration/wallets") (codes "Embedded wallets")
          ∷ item (base ++ codes "/configuration/smart-accounts") (codes "Smart accounts")
          ∷ item (base ++ codes "/configuration/session-signers") (codes "Session signers")
          ∷ item (base ++ codes "/configuration/policies") (codes "Policies")
          ∷ item (base ++ codes "/configuration/funding") (codes "Funding")
          ∷ [];
    }
    ∷ record {
      title = some (codes "Settings");
      items =
          exact_item (base ++ codes "/settings") (codes "Basics")
          ∷ item (base ++ codes "/settings/domains") (codes "Domains")
          ∷ item (base ++ codes "/settings/webhooks") (codes "Webhooks")
          ∷ [];
    }
    ∷ []

unfoldable pub org_nav : Str → List NavGroup
org_nav org_id =
    let base : Str = codes "/org/" ++ org_id in
    record {
      title = some (codes "Organization");
      items =
          item (base ++ codes "/members") (codes "Members")
          ∷ item (base ++ codes "/billing") (codes "Billing")
          ∷ item (base ++ codes "/settings") (codes "Settings")
          ∷ [];
    }
    ∷ []

unfoldable pub staff_nav : List NavGroup
staff_nav =
    record {
      title = some (codes "Platform");
      items = exact_item (codes "/staff") (codes "Overview") ∷ [];
    }
    ∷ []

unfoldable pub is_active : Str → NavItem → Bool
unfolding ◌===◌ starts_with
is_active pathname i =
    if i.exact
    then pathname === i.href
    else pathname === i.href || starts_with pathname (i.href ++ codes "/")
