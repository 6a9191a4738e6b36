-- ===== src/Routes.antt =====
-- web/app/api: the route handlers that run on the web server, between the browser and a service
-- that takes a secret.
pub mod Token
pub mod Bundler
