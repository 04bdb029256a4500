-- ===== src/Auth.antt =====
-- internal/auth/entraid: tokens of Entra ID and their cache.
mod Defs
mod Keys
mod Tokens
mod Served
mod File
mod Tests
