-- ===== src/Provision.antt =====
-- web/lib/provision.ts: a Signet key for the developer who has signed in.
-- The SDK, the chain and the shape of the API's answers are parameters.
pub mod Requests
pub mod Steps
pub mod Made
pub mod Session
