-- ===== src/Lab.antt =====
-- factory/lab: the factory that boots lab hosts over the network and gives them to workers.
pub mod Models
pub mod Database
pub mod Changes
pub mod Refines
pub mod Invariants
pub mod Settled
pub mod History
pub mod InstanceId
pub mod Worker
pub mod Upload
pub mod Minder
pub mod Console
pub mod Examples
