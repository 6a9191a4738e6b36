-- ===== src/Console.antt =====
-- web/providers/SessionProvider.tsx: who is signed in, and the organization that the console is
-- scoped to. The token and the signing session, which it also clears, are those of Api.antt and
-- SessionKey.antt.
pub mod Scope
pub mod Refresh
pub mod Shell
pub mod SignOut
use signet_platform.Prelude.{
  Bool, true, false, Option, none, some, List, [], ◌∷◌, any, find, head?, if◌then◌else◌,
}
use signet_platform.Prelude.Text.{Str, ◌===◌, truthy}
use signet_platform.Types.Account.{User, NetworkConfig, Organization, Session}

pub data Status : Type 0 where
  loading signed_in signed_out : Status

-- `stored_org` is the item of localStorage, and `org_open` whether that storage can be used.
pub record Console : Type 0 where
  pub status : Status
  pub user : Option User
  pub organizations : List Organization
  pub network : Option NetworkConfig
  pub active_org_id : Option Str
  pub stored_org : Option Str
  pub org_open : Bool

-- `current ?? readStoredOrg()`
unfoldable pub remembered : Console → Option Str
remembered c = elim c.active_org_id [
  | none ↦ if c.org_open then c.stored_org else none
  | some i ↦ some i
]

unfoldable pub has_org : Str → List Organization → Bool
unfolding ◌===◌
has_org i orgs = any (λ (o : Organization). o.id === i) orgs

-- `session.organizations[0]?.id ?? null`
unfoldable pub first_org : List Organization → Option Str
first_org orgs = elim (head? orgs) [ none ↦ none | some o ↦ some o.id ]

unfoldable pub chosen_org : Option Str → List Organization → Option Str
unfolding has_org first_org
chosen_org none orgs = first_org orgs
chosen_org (some i) orgs = if has_org i orgs then some i else first_org orgs

unfoldable pub apply : Session → Console → Console
unfolding chosen_org remembered
apply s c = record c {
  user = some s.user;
  organizations = s.organizations;
  network = some s.network;
  status = signed_in;
  active_org_id = chosen_org (truthy (remembered c)) s.organizations;
}

-- `refresh`, when the API answers that the token is not valid
unfoldable pub refused : Console → Console
refused c = record c { user = none; organizations = []; status = signed_out }

unfoldable pub sign_out : Console → Console
sign_out c = record c { user = none; organizations = []; active_org_id = none; status = signed_out }

unfoldable pub set_active_org : Str → Console → Console
set_active_org i c = record c {
  active_org_id = some i;
  stored_org = if c.org_open then some i else c.stored_org;
}

unfoldable pub active_org : Console → Option Organization
unfolding ◌===◌
active_org c = elim c.active_org_id [
  | none ↦ none
  | some i ↦ find (λ (o : Organization). o.id === i) c.organizations
]
