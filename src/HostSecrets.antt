-- ===== src/HostSecrets.antt =====
-- src/host_secrets: the services that a secret can be for, and the placeholder that a sandbox holds
-- in place of its value.
pub mod Catalog
pub mod Placeholder
