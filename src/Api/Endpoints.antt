-- ===== src/Api/Endpoints.antt =====
-- web/lib/api.ts: the table of the API's endpoints, each a method, a path and a body.
use signet_platform.Prelude.{Option, none, some, List, ◌++◌}
use signet_platform.Prelude.Text.{Str, codes}
use signet_platform.Effects.Json.{Json, str, obj, Fields, end, field}
use signet_platform.Api.Query.{Urls, Param, query_string}

pub record Call : Type 0 where
  pub method : Str
  pub path : Str
  pub body : Option Json

abbrev pub get : Str → Call
get path = record { method = codes "GET"; path = path; body = none }

abbrev pub post : Str → Option Json → Call
post path body = record { method = codes "POST"; path = path; body = body }

abbrev pub patch : Str → Fields → Call
patch path body = record { method = codes "PATCH"; path = path; body = some (obj body) }

abbrev pub put : Str → Json → Call
put path body = record { method = codes "PUT"; path = path; body = some body }

abbrev pub del : Str → Option Json → Call
del path body = record { method = codes "DELETE"; path = path; body = body }

-- An object with one more string member, left out if it is `undefined`.
abbrev pub text_field : Str → Str → Fields → Fields
text_field k v rest = field k (str v) rest

abbrev pub maybe_field : Str → Option Str → Fields → Fields
maybe_field k v rest = elim v [ none ↦ rest | some s ↦ field k (str s) rest ]

abbrev pub optional_object : Option Fields → Option Json
optional_object body = elim body [ none ↦ none | some fs ↦ some (obj fs) ]

-- Endpoints of no organization and no app.
pub data Endpoint : Type 0 where
  config status webhook_events staff_overview logout me my_apps orgs : Endpoint
  node_operators : List (Str × Param) → Endpoint
  node_operator node_certificate accept_invite : Str → Endpoint
  challenge : Str → Option Str → Endpoint
  verify record_signet_key update_me presign_upload : Fields → Endpoint
  create_org : Str → Option Str → Endpoint

unfoldable pub call_of : Urls → Endpoint → Call
unfolding query_string
call_of urls config = get (codes "/v1/config")
call_of urls status = get (codes "/v1/status")
call_of urls webhook_events = get (codes "/v1/webhooks/events")
call_of urls staff_overview = get (codes "/v1/staff/overview")
call_of urls (node_operators params) =
    get (codes "/v1/marketplace/nodes" ++ query_string urls params)
call_of urls (node_operator address) =
    get (codes "/v1/marketplace/nodes/" ++ urls.component address)
call_of urls (challenge method address) =
    post (codes "/v1/auth/challenge")
      (some (obj (text_field (codes "method") method (maybe_field (codes "address") address end))))
call_of urls (verify body) = post (codes "/v1/auth/verify") (some (obj body))
call_of urls logout = post (codes "/v1/auth/logout") none
call_of urls (node_certificate session_pub) =
    post (codes "/v1/auth/node-certificate")
      (some (obj (text_field (codes "session_pub") session_pub end)))
call_of urls (record_signet_key body) = put (codes "/v1/me/signet-key") (obj body)
call_of urls me = get (codes "/v1/me")
call_of urls (update_me body) = patch (codes "/v1/me") body
call_of urls my_apps = get (codes "/v1/me/apps")
call_of urls (accept_invite token) =
    post (codes "/v1/invites/" ++ urls.component token ++ codes "/accept") none
call_of urls orgs = get (codes "/v1/orgs")
call_of urls (create_org name billing_email) = post (codes "/v1/orgs") (
    some (
      obj (text_field (codes "name") name (maybe_field (codes "billing_email") billing_email end))))
call_of urls (presign_upload body) = post (codes "/v1/uploads/presign") (some (obj body))

-- Endpoints of an organization.
pub data OrgEndpoint : Type 0 where
  org members invites org_audit assets billing invoices apps : OrgEndpoint
  update_org update_billing create_app : Fields → OrgEndpoint
  set_member_role create_invite : Str → Str → OrgEndpoint
  remove_member revoke_invite delete_asset : Str → OrgEndpoint
  draft_invoice : Option Fields → OrgEndpoint

abbrev pub org_base : Str → Str
org_base org_id = codes "/v1/orgs/" ++ org_id

unfoldable pub org_call : Str → OrgEndpoint → Call
org_call o org = get (org_base o)
org_call o (update_org body) = patch (org_base o) body
org_call o members = get (org_base o ++ codes "/members")
org_call o (set_member_role user_id role) =
    patch (org_base o ++ (codes "/members/" ++ user_id)) (text_field (codes "role") role end)
org_call o (remove_member user_id) = del (org_base o ++ (codes "/members/" ++ user_id)) none
org_call o invites = get (org_base o ++ codes "/invites")
org_call o (create_invite email role) =
    post (org_base o ++ codes "/invites")
      (some (obj (text_field (codes "email") email (text_field (codes "role") role end))))
org_call o (revoke_invite invite_id) = del (org_base o ++ (codes "/invites/" ++ invite_id)) none
org_call o org_audit = get (org_base o ++ codes "/audit")
org_call o assets = get (org_base o ++ codes "/assets")
org_call o (delete_asset asset_id) = del (org_base o ++ (codes "/assets/" ++ asset_id)) none
org_call o billing = get (org_base o ++ codes "/billing")
org_call o (update_billing body) = patch (org_base o ++ codes "/billing") body
org_call o invoices = get (org_base o ++ codes "/invoices")
org_call o (draft_invoice body) =
    post (org_base o ++ codes "/invoices/draft")
      (some (obj (elim body [ none ↦ end | some b ↦ b ])))
org_call o apps = get (org_base o ++ codes "/apps")
org_call o (create_app body) = post (org_base o ++ codes "/apps") (some (obj body))
