-- ===== src/Server.antt =====
-- The core API server: server/src.
pub mod Models
pub mod State
pub mod Events
pub mod Jobs
pub mod Workers
pub mod JobTable
pub mod Create
pub mod Store
pub mod Bootstrap
pub mod Files
pub mod Commits
pub mod Api
pub mod Factories
pub mod Depends
pub mod Pass
pub mod Waiters
pub mod Assignment
pub mod Cleanup
pub mod Completion
pub mod Samples
pub mod Leases
pub mod History
