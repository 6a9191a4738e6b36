-- ===== src/SignIn.antt =====
-- web/app/auth/callback/page.tsx and web/app/login/page.tsx: signing in to the console.
pub mod Sdk
pub mod Callback
pub mod Session
pub mod Verified
pub mod Entered
pub mod Login
