-- ===== src/Query.antt =====
-- web/lib/hooks.ts: `useQuery` and `useAction` as machines. The requests that a hook has started and
-- that have not answered yet are part of its state, since they may answer in any order.
pub mod Steps
pub mod Freshness
pub mod Exclusive
pub mod Ordered
pub mod Latest
pub mod Spinner
