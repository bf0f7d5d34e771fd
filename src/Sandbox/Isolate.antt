-- ===== src/Sandbox/Isolate.antt =====
-- internal/sandbox/isolate/isolate.go: running a command in a box of isolate.
pub mod Args
pub mod Meta
pub mod Run
pub mod Pool
