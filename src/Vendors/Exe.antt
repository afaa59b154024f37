-- ===== src/Vendors/Exe.antt =====
-- src/providers/exe: the adapter of exe.dev, whose API takes command lines.
pub mod Script
pub mod Reply
pub mod Commands
pub mod Api
pub mod Provider
pub mod Sent
pub mod Words
