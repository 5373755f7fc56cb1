-- ===== src/Guarantees.antt =====
-- What the protocol means for the objects that the reconciler handles, one module for a promise.
pub mod Usage
pub mod Lives
pub mod Submissions
pub mod Retries
pub mod Deletions
pub mod Expiry
pub mod Adoption
pub mod Refresh
pub mod Progress
pub mod Create
pub mod Start
pub mod Park
pub mod Release
pub mod Report
pub mod Namespace
