-- ===== src/Vendors.antt =====
-- src/providers: the adapters of the vendors.
pub mod Exe
pub mod Hetzner
