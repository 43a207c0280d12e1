-- ===== src/Security.antt =====
-- app/services/security: the limiter of attempts, quotas, roles and access scopes.
pub mod RateLimiter
pub mod Rbac
pub mod AccessScope
pub mod Quota
