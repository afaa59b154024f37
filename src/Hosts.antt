-- ===== src/Hosts.antt =====
-- src/hosts: the sandbox hosts, from the request to the teardown.
pub mod Model
pub mod World
pub mod Session
pub mod KeyScan
pub mod Name
pub mod Provision
pub mod Create
pub mod Claim
pub mod Request
pub mod Lifecycle
pub mod Pool
pub mod Janitor
pub mod Service
pub mod Invariant
pub mod Trace
