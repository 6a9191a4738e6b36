-- ===== src/UserOp.antt =====
-- web/lib/userop.ts: building and signing the operations that the console sends on-chain.
pub mod Wire
pub mod Build
