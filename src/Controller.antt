-- ===== src/Controller.antt =====
-- operator/internal/controller/trainingjob_controller.go. The functions of the reconciler, each an
-- action over the client; a function that writes to the job it is given returns the new job.
pub mod Status
pub mod QuotaGate
pub mod Ttl
pub mod Workflows
pub mod Reconcile
