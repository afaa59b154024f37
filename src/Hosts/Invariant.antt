-- ===== src/Hosts/Invariant.antt =====
-- What holds of the database (src/hosts/models.py) at every moment between two statements of
-- HostService.
pub mod Defs
mod Rows
mod Tables
mod Statements
pub mod Provisioning
pub mod Operations
pub mod Requests
pub mod Maintenance
