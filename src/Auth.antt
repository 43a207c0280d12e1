-- ===== src/Auth.antt =====
-- app/services/auth: the one-time states of the OAuth login.
pub mod OauthState
