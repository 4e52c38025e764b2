-- ===== src/Csds.antt =====
-- The CSDS packages: which domain serves which service of an account.
pub mod Config
pub mod Resolver
pub mod Simple
pub mod Caching
