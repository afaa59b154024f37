-- ===== src/Exchange.antt =====
-- src/secrets_exchange: the process that holds the current value of each registered secret.
pub mod Secret
pub mod Refreshable
pub mod Table
pub mod Authorize
