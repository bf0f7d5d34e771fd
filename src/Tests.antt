-- ===== src/Tests.antt =====
-- Runs of the definitions on concrete inputs, and the theorems applied to them.
pub mod Fixtures
pub mod Archive
pub mod Judging
pub mod Engine
pub mod Sandbox
pub mod Isolate
pub mod Docker
pub mod Limits
pub mod Languages
pub mod Service
pub mod Config
pub mod Fields
pub mod Listing
pub mod Queue
pub mod Worker
pub mod Api
pub mod Startup
