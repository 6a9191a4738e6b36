-- ===== src/Onchain.antt =====
-- web/lib/onchain.ts: which key signs a group call, and how the call reaches the chain.
pub mod Transport
pub mod Receipt
pub mod Call
pub mod Body
pub mod Hooks
