-- ===== src/GroupPage.antt =====
-- web/app/(console)/apps/[appId]/group/page.tsx: the page of an app's signing group.
pub mod Members
pub mod Calls
pub mod Reported
