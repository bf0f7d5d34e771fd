-- ===== src/Api.antt =====
-- internal/httpapi: the parts of a request that are read by hand.
pub mod Fields
pub mod Answers
pub mod Auth
pub mod Submissions
pub mod Router
