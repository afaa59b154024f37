-- ===== src/Vendors/Hetzner.antt =====
-- The Hetzner adapter of src/providers/hetzner.
pub mod Api
pub mod Provider
pub mod Replies
pub mod Gone
pub mod Ready
