-- ===== src/Api.antt =====
-- The custom resources of operator/api/v1alpha1.
pub mod TrainingJob
pub mod GpuQuota
pub mod Conditions
