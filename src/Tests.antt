-- ===== src/Tests.antt =====
-- Concrete environments, one run of the reconciler in each, and the theorems applied to them.
pub mod World
pub mod Scenarios
pub mod Safety
pub mod Progress
pub mod Parts
pub mod Copies
pub mod Endings
pub mod Boots
pub mod Sharing
