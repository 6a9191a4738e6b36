-- ===== src/Api/AppEndpoints.antt =====
-- web/lib/api.ts: the endpoints of an app, and how the client calls an endpoint.
use signet_platform.Prelude.{Bool, Option, none, some, List, [], ◌++◌, if◌then◌else◌}
use signet_platform.Prelude.Text.{Str, codes}
use signet_platform.Effects.Json.{Json, str, obj, Fields, end, field, set_field}
use signet_platform.Effects.World.{Exec}
use signet_platform.Effects.Host.{Host}
use signet_platform.Api.{request}
use signet_platform.Api.Query.{Urls, Param, query_string}
use signet_platform.Api.Endpoints.{
  Call, get, post, patch, put, del, text_field, maybe_field, optional_object,
}

-- `keyof AppSettings`
pub data SettingsSection : Type 0 where
  login_methods branding embedded_wallets smart_accounts session_signers funding compliance
        updated_at :
      SettingsSection

unfoldable pub section_name : SettingsSection → Str
section_name login_methods = codes "login_methods"
section_name branding = codes "branding"
section_name embedded_wallets = codes "embedded_wallets"
section_name smart_accounts = codes "smart_accounts"
section_name session_signers = codes "session_signers"
section_name funding = codes "funding"
section_name compliance = codes "compliance"
section_name updated_at = codes "updated_at"

-- Members that stand for other values come with them: a proof is given by its members.
pub data AppEndpoint : Type 0 where
  app archive_app settings domains credentials issuers group sync_group policies webhooks
        app_audit :
      AppEndpoint
  update_app create_credential save_issuer deploy_group record_delegation save_policy
        create_webhook :
      Fields → AppEndpoint
  environment_check add_domain remove_domain revoke_delegation delete_policy delete_webhook
        deliveries test_webhook :
      Str → AppEndpoint
  save_settings : SettingsSection → Json → AppEndpoint
  revoke_credential remove_issuer : Str → Option Fields → AppEndpoint
  execute_group_call : Fields → Str → AppEndpoint
  attach_group : Str → Option Str → AppEndpoint
  keys app_users usage : List (Str × Param) → AppEndpoint
  sync_keys : Json → AppEndpoint
  update_key : Str → Str → Fields → AppEndpoint
  label_app_user : Str → Str → AppEndpoint
  delegations : Bool → AppEndpoint
  update_webhook : Str → Fields → AppEndpoint

abbrev pub app_base : Str → Str
app_base app_id = codes "/v1/apps/" ++ app_id

unfoldable pub app_call : Urls → Str → AppEndpoint → Call
unfolding section_name query_string set_field
app_call urls a app = get (app_base a)
app_call urls a (update_app body) = patch (app_base a) body
app_call urls a archive_app = del (app_base a) none
app_call urls a (environment_check to) = get (app_base a ++ (codes "/environment/check?to=" ++ to))
app_call urls a settings = get (app_base a ++ codes "/settings")
app_call urls a (save_settings section doc) =
    put (app_base a ++ (codes "/settings/" ++ section_name section)) doc
app_call urls a domains = get (app_base a ++ codes "/domains")
app_call urls a (add_domain origin) =
    post (app_base a ++ codes "/domains") (some (obj (text_field (codes "origin") origin end)))
app_call urls a (remove_domain domain_id) =
    del (app_base a ++ (codes "/domains/" ++ domain_id)) none
app_call urls a credentials = get (app_base a ++ codes "/credentials")
app_call urls a (create_credential body) =
    post (app_base a ++ codes "/credentials") (some (obj body))
app_call urls a (revoke_credential credential_id proof) =
    del (app_base a ++ (codes "/credentials/" ++ credential_id)) (optional_object proof)
app_call urls a issuers = get (app_base a ++ codes "/issuers")
app_call urls a (save_issuer body) = put (app_base a ++ codes "/issuers") (obj body)
app_call urls a (remove_issuer issuer_id proof) =
    del (app_base a ++ (codes "/issuers/" ++ issuer_id)) (optional_object proof)
app_call urls a group = get (app_base a ++ codes "/group")
app_call urls a (deploy_group body) = post (app_base a ++ codes "/group/deploy") (some (obj body))
app_call urls a (execute_group_call proof action) =
    post (app_base a ++ codes "/group/execute")
      (some (obj (set_field (codes "action") (str action) proof)))
app_call urls a (attach_group group_address group_public_key) =
    post (app_base a ++ codes "/group/attach") (
      some (
        obj (
          text_field (codes "group_address") group_address
            (maybe_field (codes "group_public_key") group_public_key end))))
app_call urls a sync_group = post (app_base a ++ codes "/group/sync") none
app_call urls a (keys params) = get (app_base a ++ (codes "/keys" ++ query_string urls params))
app_call urls a (sync_keys inventory) =
    post (app_base a ++ codes "/keys/sync") (some (obj (field (codes "keys") inventory end)))
app_call urls a (update_key curve key_id body) =
    patch (app_base a ++ (codes "/keys/" ++ (curve ++ (codes "/" ++ urls.component key_id)))) body
app_call urls a (app_users params) =
    get (app_base a ++ (codes "/users" ++ query_string urls params))
app_call urls a (label_app_user user_id label) =
    patch (app_base a ++ (codes "/users/" ++ user_id)) (text_field (codes "label") label end)
app_call urls a (delegations include_revoked) = get (
    app_base a
    ++ (codes "/delegations" ++ (if include_revoked then codes "?include_revoked=true" else [])))
app_call urls a (record_delegation body) =
    post (app_base a ++ codes "/delegations") (some (obj body))
app_call urls a (revoke_delegation delegation_id) =
    del (app_base a ++ (codes "/delegations/" ++ delegation_id)) none
app_call urls a policies = get (app_base a ++ codes "/policies")
app_call urls a (save_policy body) = put (app_base a ++ codes "/policies") (obj body)
app_call urls a (delete_policy policy_id) =
    del (app_base a ++ (codes "/policies/" ++ policy_id)) none
app_call urls a webhooks = get (app_base a ++ codes "/webhooks")
app_call urls a (create_webhook body) = post (app_base a ++ codes "/webhooks") (some (obj body))
app_call urls a (update_webhook webhook_id body) =
    patch (app_base a ++ (codes "/webhooks/" ++ webhook_id)) body
app_call urls a (delete_webhook webhook_id) =
    del (app_base a ++ (codes "/webhooks/" ++ webhook_id)) none
app_call urls a (deliveries webhook_id) =
    get (app_base a ++ (codes "/webhooks/" ++ (webhook_id ++ codes "/deliveries")))
app_call urls a (test_webhook webhook_id) =
    post (app_base a ++ (codes "/webhooks/" ++ (webhook_id ++ codes "/test"))) none
app_call urls a (usage params) = get (app_base a ++ (codes "/usage" ++ query_string urls params))
app_call urls a app_audit = get (app_base a ++ codes "/audit")

-- `request` with the parts of an endpoint.
unfoldable pub send : Host → Call → Exec Json
unfolding request
send host c = request host c.method c.path c.body
