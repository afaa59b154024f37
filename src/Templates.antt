-- ===== src/Templates.antt =====
-- src/templates: prebuilt images, shared by every request with the same base image and script.
pub mod Model
pub mod Service
pub mod Janitor
