-- ===== src/Oauth.antt =====
-- vstutils/oauth2: clients, authorization codes, sessions and refresh tokens of the OAuth server.
pub mod Client
pub mod Session
pub mod Code
pub mod Tests
