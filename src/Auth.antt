-- ===== src/Auth.antt =====
-- api/internal/auth: the state store, user resolution, token issuance and the caller's identity.
pub mod StateStore
pub mod ProviderUser
pub mod Providers
pub mod Resolver
pub mod Issuer
