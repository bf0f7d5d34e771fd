-- ===== src/Submission.antt =====
-- internal/submission: the data model, the limits and the service.
pub mod Model
pub mod Limits
pub mod Response
pub mod Backend
pub mod Service
