-- ===== src/Guarantees/Start.antt =====
-- What a run gets done for a job that waits, where the API server answers without errors.
use fyp.Common.{◌+◌, ◌-◌, ◌^◌, ◌<◌, String, [], true, false, ◌≡◌, ap, ◌∙◌}
use fyp.Exec.{Result, ok, err}
use fyp.Api.TrainingJob.{TrainingJob, running}
use fyp.Api.GpuQuota.{GpuQuota}
use fyp.WorkflowBuilder.{Fields, workflow_gvk, workflow_name, build_workflow}
use fyp.WorkflowBuilder.Manifest.{
  read_manifest, manifest, name_of_attempt, read_manifest-build_workflow,
}
use fyp.Platform.{Library, NamespacedName, CtrlResult}
use fyp.Trace.{Trace, Oracle, tracing, updated_job_status, created_unstructured}
use fyp.Protocol.{Before, quota_key, attempt_key, attempt_name}
use fyp.Guarantees.Adoption.{next_attempt-waiting}
use fyp.Guarantees.Create.{Submitted, submitted, unlimited-Submitted}
use fyp.Controller.Workflows.{next_attempt}
use fyp.Controller.Reconcile.{finalizer_name, is_waiting, reconcile}

-- The run returns no error and no requeue; it has created a Workflow that reads as the manifest of the
-- job's next attempt, and written the job as Running, with the attempts counted up by one and that
-- Workflow's name, and with metadata and spec as they were.
pub data Started {E : Type 0} (job : TrainingJob) (template_name : String) (owner : Fields → Fields)
    (after : Result E CtrlResult × Trace E) : Type 0 where
  started :
      (w : Fields) (job' : TrainingJob)
      → read_manifest w ≡ manifest job (job.status.attempts + 1) template_name
      → after.0 ≡ ok (record { requeue = false; requeue_after = 0 })
      → Before (created_unstructured (owner w) (ok tt)) after.1
      → Before (updated_job_status job' (ok tt)) after.1
      → job'.metadata ≡ job.metadata
      → job'.spec ≡ job.spec
      → job'.status.phase ≡ running
      → job'.status.attempts ≡ job.status.attempts + 1
      → job'.status.workflow_name ≡ name_of_attempt job (job.status.attempts + 1)
      → Started job template_name owner after

Submitted-Started :
    {E : Type 0} {template_name : String} (job : TrainingJob) (owner : Fields → Fields) (w : Fields)
    {after : Result E CtrlResult × Trace E}
    → (next_attempt job).0 ≡ job.status.attempts + 1
    → read_manifest w ≡ manifest job (job.status.attempts + 1) template_name
    → Submitted job (owner w) (next_attempt job).0 (attempt_name job) after
    → Started job template_name owner after
unfolding workflow_name
Submitted-Started job owner w next reads (submitted job' r k b m s p a n) =
    started w job' reads r k b m s p (a ∙ next) (n ∙ ap (name_of_attempt job) next)

module _ {E : Type 0} (lib : Library E) (o : Oracle E) (template_name : String)
    (req : NamespacedName) (job : TrainingJob) (read : o.get_job [] req ≡ ok job)
    (alive : lib.is_zero job.metadata.deletion_timestamp ≡ true)
    (held : lib.contains_finalizer job finalizer_name ≡ true) (waits : is_waiting job ≡ true)
    (writable : (t : Trace E) (j : TrainingJob) → o.update_job_status t j ≡ ok tt) where
  abbrev run : Result E CtrlResult × Trace E
  run = reconcile lib (tracing o) template_name req []

  module _ (small : job.status.attempts < 2 ^ 31 - 1) (e : E) (gone : lib.is_not_found e ≡ true)
      (missing : (t : Trace E)
        → o.get_unstructured t
            (record { group = "argoproj.io"; version = "v1alpha1"; kind = "Workflow" })
            (record {
              namespace = job.metadata.namespace;
              name = name_of_attempt job (job.status.attempts + 1);
            })
          ≡ err e)
      (owner : Fields → Fields)
      (owned : (j : TrainingJob) (w : Fields)
        → j.metadata ≡ job.metadata
        → read_manifest w ≡ manifest job (job.status.attempts + 1) template_name
        → lib.set_controller_reference j w ≡ ok (owner w))
      (creatable : (t : Trace E) (w : Fields)
        → read_manifest w ≡ manifest job (job.status.attempts + 1) template_name
        → o.create_unstructured t (owner w) ≡ ok tt) where
    next : (next_attempt job).0 ≡ job.status.attempts + 1
    next = next_attempt-waiting job waits small

    reads :
        read_manifest (build_workflow job (next_attempt job).0 template_name)
        ≡ manifest job (job.status.attempts + 1) template_name
    reads =
        read_manifest-build_workflow job _ template_name
        ∙ ap (λ n. manifest job n template_name) next

    unread : (t : Trace E) → o.get_unstructured t workflow_gvk (attempt_key job) ≡ err e
    unfolding workflow_name
    unread t = rw next (missing t)

    -- A waiting job that has the finalizer and is not being deleted, in a namespace without a
    -- quota, is started, where the Workflow of its next attempt is not there, the owner reference
    -- can be set, and the API server takes the Workflow and the status.
    pub unlimited_job_starts :
        (d : E)
        → lib.is_not_found d ≡ true
        → ((t : Trace E) → o.get_quota t (quota_key job) ≡ err d)
        → Started job template_name owner run
    unlimited_job_starts d none_there unlimited = Submitted-Started job owner _ next reads (
        unlimited-Submitted lib o template_name req job read alive held waits writable
          (owner (build_workflow job (next_attempt job).0 template_name)) e gone unread
          (λ j m. owned j _ m reads) (λ t. creatable t _ reads) d none_there unlimited)
