-- ===== src/Tests.antt =====
-- Tests and examples over a small deployment.
mod Samples
mod Parts
mod Runs
mod Secrets
mod Templates
mod Hosts
mod Headers
mod Proxies
mod Networks
mod Callers
mod Vendors
