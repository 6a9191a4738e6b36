-- ===== src/Actions/Plans.antt =====
-- The actions of the console's pages that make one request of the API: for each its request, what is
-- read again once it was accepted, and its toast.
use signet_platform.Prelude.{Bool, true, false, Option, none, List, [], ◌∷◌, if◌then◌else◌}
use signet_platform.Prelude.Text.{Str, codes, is_empty}
use signet_platform.Prelude.Space.{trim}
use signet_platform.Types.Account.{Role, owner, admin, developer, viewer}
use signet_platform.Types.GroupView.{Environment, development, production}
use signet_platform.Effects.Failure.{Result}
use signet_platform.Effects.Json.{Json, end}
use signet_platform.Api.Query.{Urls, text, missing}
use signet_platform.Api.Endpoints.{Call, Endpoint, call_of, OrgEndpoint, org_call, text_field}
use signet_platform.Api.AppEndpoints.{AppEndpoint, app_call}
use signet_platform.Actions.Toasts.{Toast, succeeds, notes, tested}

-- Each action, with the values that its handler uses of the page. The first text is the
-- organization or the app.
pub data PageAction : Type 0 where
  -- web/app/(console)/org/[orgId]/members/page.tsx
  set_role : Str → Str → Role → PageAction
  remove_member revoke_invite : Str → Str → PageAction
  -- web/app/(console)/org/[orgId]/settings/page.tsx: the name, the address for bills, the website and
  -- the logo
  save_org : Str → Str → Str → Str → Str → PageAction
  remove_asset : Str → Str → PageAction
  -- web/app/(console)/org/[orgId]/billing/page.tsx
  draft_invoice : Str → PageAction
  -- web/app/(console)/account/page.tsx: the name and the address
  save_profile : Str → Str → PageAction
  -- the pages of an app
  add_domain remove_domain delete_webhook test_webhook delete_policy : Str → Str → PageAction
  revoke_delegation : Str → Bool → Str → PageAction
  label_user : Str → Str → Str → Str → PageAction
  -- the name, the description, the environment and the website
  save_app : Str → Str → Str → Environment → Str → PageAction
  -- the app's name, and what is typed to confirm
  archive : Str → Option Str → Str → PageAction
  sync_group : Str → PageAction

-- What is read again: a query of the page, whose hook keeps a failure to itself, or the session,
-- whose `refresh` throws.
pub data Reread : Type 0 where
  query : Call → Reread
  session : Reread

-- `shows_error` says whether the page takes the error of the action from its hook.
pub record Plan : Type 0 where
  pub request : Call
  pub rereads : List Reread
  pub toast : Json → Result Toast
  pub shows_error : Bool

unfoldable pub role_text : Role → Str
role_text owner = codes "owner"
role_text admin = codes "admin"
role_text developer = codes "developer"
role_text viewer = codes "viewer"

unfoldable pub environment_text : Environment → Str
environment_text development = codes "development"
environment_text production = codes "production"

module _ (urls : Urls) where
  abbrev pub listed : Call → List Reread
  listed c = query c ∷ []

  unfoldable pub plan_of : PageAction → Plan
  unfolding role_text environment_text notes tested
  plan_of (set_role org user role) = record {
    request = org_call org (OrgEndpoint.set_member_role user (role_text role));
    rereads = listed (org_call org OrgEndpoint.members);
    toast = succeeds (codes "Role updated");
    shows_error = false;
  }
  plan_of (remove_member org user) = record {
    request = org_call org (OrgEndpoint.remove_member user);
    rereads = listed (org_call org OrgEndpoint.members);
    toast = succeeds (codes "Member removed");
    shows_error = false;
  }
  plan_of (revoke_invite org id) = record {
    request = org_call org (OrgEndpoint.revoke_invite id);
    rereads = listed (org_call org OrgEndpoint.invites);
    toast = succeeds (codes "Invitation revoked");
    shows_error = false;
  }
  plan_of (save_org org name email website logo) = record {
    request = org_call org (
        OrgEndpoint.update_org (
          text_field (codes "name") name (
            text_field (codes "billing_email") email (
              text_field (codes "website_url") website (text_field (codes "logo_url") logo end)))));
    rereads = query (org_call org OrgEndpoint.org) ∷ session ∷ [];
    toast = succeeds (codes "Saved");
    shows_error = true;
  }
  plan_of (remove_asset org id) = record {
    request = org_call org (OrgEndpoint.delete_asset id);
    rereads = listed (org_call org OrgEndpoint.assets);
    toast = succeeds (codes "Asset deleted");
    shows_error = false;
  }
  plan_of (draft_invoice org) = record {
    request = org_call org (OrgEndpoint.draft_invoice none);
    rereads = listed (org_call org OrgEndpoint.invoices);
    toast = notes (codes "Draft computed");
    shows_error = false;
  }
  plan_of (save_profile name email) = record {
    request = call_of urls (
        Endpoint.update_me
          (text_field (codes "display_name") name (text_field (codes "email") email end)));
    rereads = session ∷ [];
    toast = succeeds (codes "Profile saved");
    shows_error = true;
  }
  plan_of (add_domain app origin) = record {
    request = app_call urls app (AppEndpoint.add_domain (trim origin));
    rereads = listed (app_call urls app AppEndpoint.domains);
    toast = succeeds (codes "Domain allowed");
    shows_error = true;
  }
  plan_of (remove_domain app id) = record {
    request = app_call urls app (AppEndpoint.remove_domain id);
    rereads = listed (app_call urls app AppEndpoint.domains);
    toast = succeeds (codes "Domain removed");
    shows_error = false;
  }
  plan_of (delete_webhook app id) = record {
    request = app_call urls app (AppEndpoint.delete_webhook id);
    rereads = listed (app_call urls app AppEndpoint.webhooks);
    toast = succeeds (codes "Webhook deleted");
    shows_error = false;
  }
  plan_of (test_webhook app id) = record {
    request = app_call urls app (AppEndpoint.test_webhook id);
    rereads = [];
    toast = tested;
    shows_error = false;
  }
  plan_of (delete_policy app id) = record {
    request = app_call urls app (AppEndpoint.delete_policy id);
    rereads = listed (app_call urls app AppEndpoint.policies);
    toast = succeeds (codes "Policy deleted");
    shows_error = false;
  }
  plan_of (revoke_delegation app include_revoked id) = record {
    request = app_call urls app (AppEndpoint.revoke_delegation id);
    rereads = listed (app_call urls app (AppEndpoint.delegations include_revoked));
    toast = notes (codes "Marked revoked");
    shows_error = false;
  }
  plan_of (label_user app search user value) = record {
    request = app_call urls app (AppEndpoint.label_app_user user value);
    rereads = listed (
        app_call urls app (
          AppEndpoint.app_users (
            (codes "q", if is_empty search then missing else text search)
            ∷ (codes "limit", text (codes "100"))
            ∷ [])));
    toast = succeeds (codes "Label saved");
    shows_error = false;
  }
  plan_of (save_app app name description environment website) = record {
    request = app_call urls app (
        AppEndpoint.update_app (
          text_field (codes "name") name (
            text_field (codes "description") description (
              text_field (codes "environment") (environment_text environment)
                (text_field (codes "website_url") website end)))));
    rereads =
        query (app_call urls app AppEndpoint.app)
        ∷ query (app_call urls app (AppEndpoint.environment_check (codes "production")))
        ∷ session
        ∷ [];
    toast = succeeds (codes "Saved");
    shows_error = true;
  }
  plan_of (archive app name typed) = record {
    request = app_call urls app AppEndpoint.archive_app;
    rereads = session ∷ [];
    toast = notes (codes "App archived");
    shows_error = false;
  }
  plan_of (sync_group app) = record {
    request = app_call urls app AppEndpoint.sync_group;
    rereads = listed (app_call urls app AppEndpoint.group);
    toast = succeeds (codes "Synced from the chain");
    shows_error = false;
  }
