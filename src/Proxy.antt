-- ===== src/Proxy.antt =====
-- deploy/proxy/swap.py: the proxy's addon, which swaps a placeholder for the real credential.
pub mod Header
pub mod Client
pub mod Addon
pub mod Swap
