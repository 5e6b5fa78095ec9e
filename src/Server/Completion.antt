-- ===== src/Server/Completion.antt =====
-- What `job_complete` in server/src/db.rs makes of a job and its tasks.
pub mod Tasks
pub mod Outcome
pub mod Examples
