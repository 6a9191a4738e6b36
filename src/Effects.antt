-- ===== src/Effects.antt =====
-- How the asynchronous, throwing code of web/lib runs: a method is a function of the tab's state,
-- and what it wrote before a throw stays written.
pub mod Failure
pub mod World
pub mod Stages
pub mod Laws
pub mod Keeps
pub mod Json
pub mod Host
pub mod Wallet
