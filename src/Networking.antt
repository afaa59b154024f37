-- ===== src/Networking.antt =====
-- networking/tailscale.py: the tailnet's API, the shared device waiter and what HostService calls.
pub mod Api
pub mod Waiter
