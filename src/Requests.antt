-- ===== src/Requests.antt =====
-- src/hosts/schemas.py and src/host_secrets/schemas.py: what the API takes.
pub mod Patterns
pub mod SecretEntry
pub mod HostCreate
