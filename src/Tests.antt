-- ===== src/Tests.antt =====
-- Concrete inputs, the theorems applied to them, and runs of the definitions.
mod Samples
mod SessionKey
mod Operators
mod Provision
mod SignIn
mod Api
mod Routes
mod Format
mod GroupPage
mod Query
mod Nav
mod Console
mod Wizard
mod Signet
mod UserOp
mod Onchain
mod Deploy
mod Toasts
mod Credentials
mod Wallets
mod Settings
mod Marketplace
mod Issuers
mod Chart
mod Actions
mod Policies
mod Webhooks
mod Onboarding
