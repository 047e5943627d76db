-- ===== src/Accounts.antt =====
-- The sessions of users: src/youwol/utils/clients/oidc/tokens_manager.py and
-- src/youwol/backends/accounts/openid_rp, over the cache that a local server shares between them.
pub mod Tokens
pub mod SessionLess
pub mod Flows
pub mod Laws
