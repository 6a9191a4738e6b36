-- ===== src/Lib.antt =====
-- The verification of the console of the Signet platform, the TypeScript program under web/.
--
-- A tab of the console holds a signing session: an ephemeral key pair, the claims it is bound to and
-- the public key of the developer's Signet key. With it the tab asks a group of operators to sign what
-- the developer's smart wallet sends on chain. The parts, with the files that model them:
--
-- - web/lib/session-key.ts, the session in the tab's sessionStorage: SessionKey.antt, with
--   storeSigningSession, loadSigningSession and clearSigningSession.
-- - web/lib/provision.ts, how a developer gets a key and a session, and counterfactualAccount of
--   web/lib/signet.ts: Provision.antt. It calls the API client, the relay, the SDK and the storage.
-- - web/lib/signet.ts, signing by the bootstrap group and Sign-In with Ethereum: Signet.antt, with
--   signWithBootstrapGroup, siweSignIn and buildSiweMessage.
-- - web/lib/userop.ts, user operations: UserOp.antt, with buildSignedUserOp and serialize. It signs by
--   way of Signet.antt.
-- - web/lib/abi.ts, web/lib/onchain.ts and web/lib/deploy.ts, calls of a group's contract: Abi.antt and
--   Onchain.antt, with chooseTransport, signCall, signGroupCall, sendGroupCall, waitForReceipt,
--   submitGroupCall, signCreateGroup and what the hooks useCanSignOnchain and
--   useSigningSessionMinutesLeft read. They load the session and build user operations.
-- - web/lib/api.ts, the client of the platform's API: Api.antt, with request, storedToken, storeToken,
--   the message of ApiError, queryString, nodeProxy, uploadFile and the table of endpoints, which is a
--   data type with the request of each of its members.
-- - web/app/login/page.tsx and web/app/auth/callback/page.tsx, signing in: SignIn.antt. The login page
--   keeps the nonce of a challenge and redirects to Google, or signs in with a wallet and provisions a
--   key; the callback page opens a session at one operator, has the group sign the platform's
--   challenge and stores the session and the token.
-- - web/app/(console)/apps/[appId]/group/page.tsx, the page of a signing group: GroupPage.antt, with
--   the calls of the group's contract, which go by way of Onchain.antt and Api.antt, the lists of
--   members, the operators that can be invited and the guard of a removal.
-- - web/app/(console)/apps/[appId]/credentials/page.tsx, secrets and authorization keys:
--   Credentials.antt, with the handlers that create and revoke them, which go by way of Onchain.antt and
--   Api.antt, and what the page shows.
-- - web/app/(console)/apps/[appId]/wallets/page.tsx, the keys of an app: Wallets.antt, with setStatus,
--   which goes by way of the node proxy and then of the platform, and sync.
-- - web/components/console/SettingsForm.tsx, the form of a section of the settings: Settings.antt.
-- - web/app/(console)/apps/[appId]/configuration/login-methods/page.tsx, the trusted issuers:
--   Issuers.antt, with remove and add, which go by way of Onchain.antt and Api.antt.
-- - the pages of an organization's members, settings and bills, of the account, and of an app's
--   settings, domains, session signers and users, all under web/app/(console): Actions.antt, with the
--   actions that make one request, read again what they may have changed and say how it went.
-- - web/app/(console)/apps/[appId]/settings/webhooks/page.tsx, the dialog that adds an endpoint:
--   Webhooks.antt.
-- - web/app/(console)/apps/[appId]/configuration/policies/page.tsx, the editor of policies:
--   Policies.antt.
-- - web/app/(marketing)/marketplace/page.tsx, the directory of nodes: Marketplace.antt, with the filters
--   and sortOperators; what it shows is grouped by Operators.antt.
-- - web/components/Chart.tsx: Chart.antt, with the top of the axis and the labels.
-- - web/app/api, the two route handlers of the web server: Routes.antt, with the exchange of Google's
--   token and the proxy to the bundler.
-- - web/lib/format.ts, what the screens show of addresses and times: Format.antt, with relativeTime in
--   Format/Relative.antt.
-- - web/lib/operators.ts, nodes by operator: Operators.antt.
-- - web/lib/hooks.ts, useQuery and useAction: Query.antt.
-- - web/app/(console)/apps/new/page.tsx, the wizard for a new app: Wizard.antt, with its steps, the
--   selection of nodes, the threshold, what its review submits, and the deployment, which signs by way
--   of Onchain.antt.
-- - web/components/console/nav.ts, the navigation: Nav.antt.
-- - web/providers/SessionProvider.tsx, who is signed in and the active organization, with signOut, and
--   what web/app/(console)/layout.tsx shows and web/components/console/AppSwitcher.tsx offers:
--   Console.antt.
-- - web/app/(console)/onboarding/page.tsx, the creation of an organization: Onboarding.antt, which reads
--   the session again and switches the console of Console.antt to it.
-- - web/providers/ToastProvider.tsx, the toasts and their timers: Toasts.antt.
-- - web/lib/types.ts: Types.antt.
--
-- An asynchronous function that can throw is a function of the tab's state (Effects/World.antt): the
-- cells of sessionStorage, whether the storage lets itself be used, the token of localStorage, the
-- clock, and the calls that leave the tab, in order. A throw is a value (Effects/Failure.antt), and
-- what was written before it stays written. A hook and the wizard are machines, whose inputs come in
-- any order. Texts are lists of UTF-16 code units, and numbers are natural numbers.
--
-- Parameters of the model are the code outside the repository: the SDK and its bundler client, viem,
-- the injected wallet, the network, the JSON parser and the URL parser of the browser. Their answers
-- are values or errors of their own. An answer of the API is taken to have the type that the console
-- takes it for.
--
-- The only fuel is that of the rounds of waitForReceipt: each round waits at least three seconds of
-- the five minutes that it has, so that 101 rounds are enough, which Onchain/Receipt/Laws.antt proves;
-- and that of the power of ten of a chart's axis, which is raised fewer times than the greatest value,
-- as Chart/Axis.antt proves.
--
-- Not modelled: the backend, another language; markup and styles; the documentation pages; dynamic
-- imports that fail; the remaining pages and providers of web/; the member `check` of ApiError in
-- web/lib/api.ts; the formats of the browser's locale; the timer useTicker of web/lib/hooks.ts;
-- formatBytes and formatPercent of web/lib/format.ts; on the pages of Actions.antt, the input
-- fields that an action clears; on the group's page, the dialog that links a group; in the wizard,
-- the toast at its end and the change of the list of operators that are offered, apart from its
-- effect on the selection.
pub mod Prelude
pub mod Types
pub mod Effects
pub mod Api
pub mod SessionKey
pub mod Signet
pub mod UserOp
pub mod Abi
pub mod Onchain
pub mod Provision
pub mod SignIn
pub mod Operators
pub mod Query
pub mod Wizard
pub mod Nav
pub mod Format
pub mod Toasts
pub mod GroupPage
pub mod Credentials
pub mod Issuers
pub mod Settings
pub mod Wallets
pub mod Actions
pub mod Policies
pub mod Webhooks
pub mod Marketplace
pub mod Chart
pub mod Routes
pub mod Console
pub mod Onboarding
pub mod Tests
