-- ===== src/Guarantees/Create.antt =====
-- What a run gets done for a job that waits, up to the write behind the Create.
use fyp.Common.{String, Option, none, some, List, [], true, false, ◌≡◌, refl, arith}
use fyp.Common.Words.{Int32}
use fyp.Exec.{Result, ok, err, ◌>>=◌}
use fyp.Api.TrainingJob.{TrainingJob, Time, is_terminal, running}
use fyp.Api.GpuQuota.{GpuQuota}
use fyp.Quota.{used_gpus}
use fyp.WorkflowBuilder.{
  Fields, workflow_gvk, workflow_name, build_workflow, workflow_params, s3_path,
}
use fyp.Platform.{Library, NamespacedName, CtrlResult}
use fyp.Trace.{Trace, Oracle, tracing, updated_job_status, created_unstructured}
use fyp.Protocol.{Before, here, there, quota_key, attempt_key, attempt_name}
use fyp.Guarantees.Refresh.{refreshed}
use fyp.Controller.Ttl.{done}
use fyp.Controller.QuotaGate.{over_quota, admit, weigh, quota_gate}
use fyp.Controller.Workflows.{
  next_attempt, start_time, write_submission, record_submission, submit, ensure_workflow,
}
use fyp.Controller.Reconcile.{finalizer_name, is_waiting, advance, reconcile_job, reconcile}

pub waiting-open : (job : TrainingJob) → is_waiting job ≡ true → is_terminal job ≡ false
waiting-open job w = ground arith

waiting-creates : (job : TrainingJob) → is_waiting job ≡ true → (next_attempt job).1 ≡ true
unfolding next_attempt
waiting-creates job w = ground arith

-- The run has created the Workflow and written the job as Running, with the attempt and its Workflow.
pub data Submitted {E : Type 0} (job : TrainingJob) (wf : Fields) (attempt : Int32) (name : String)
    (after : Result E CtrlResult × Trace E) : Type 0 where
  submitted :
      (job' : TrainingJob)
      → after.0 ≡ ok done
      → Before (created_unstructured wf (ok tt)) after.1
      → Before (updated_job_status job' (ok tt)) after.1
      → job'.metadata ≡ job.metadata
      → job'.spec ≡ job.spec
      → job'.status.phase ≡ running
      → job'.status.attempts ≡ attempt
      → job'.status.workflow_name ≡ name
      → Submitted job wf attempt name after

module _ {E : Type 0} (lib : Library E) (o : Oracle E) (template_name : String)
    (writable : (t : Trace E) (j : TrainingJob) → o.update_job_status t j ≡ ok tt) where
  write_submission-Submitted :
      (job : TrainingJob) (attempt : Int32) (name : String) (s : Option Time) {wf : Fields}
      {t : Trace E}
      → Before (created_unstructured wf (ok tt)) t
      → Submitted job wf attempt name (write_submission lib (tracing o) job attempt true name s t)
  unfolding write_submission ◌>>=◌
  write_submission-Submitted job attempt name s k = rw (writable _ _) (
      let (r, b) = refreshed o job.metadata.namespace done here in
      let (_, k') = refreshed o job.metadata.namespace done (there k) in
      submitted _ r k' b refl refl refl refl refl)

  start_time-Submitted :
      (job : TrainingJob) (attempt : Int32) (name : String) (s : Option Time) {wf : Fields}
      {t : Trace E}
      → Before (created_unstructured wf (ok tt)) t
      → Submitted job wf attempt name (
          (start_time lib (tracing o) s >>= write_submission lib (tracing o) job attempt true name)
            t)
  unfolding start_time ◌>>=◌
  start_time-Submitted job attempt name none k =
      write_submission-Submitted job attempt name _ (there k)
  start_time-Submitted job attempt name (some time) k =
      write_submission-Submitted job attempt name _ k

  ensure_workflow-Submitted :
      (job : TrainingJob) (wf : Fields) (e : E) (t : Trace E)
      → is_waiting job ≡ true
      → ((t : Trace E) → o.get_unstructured t workflow_gvk (attempt_key job) ≡ err e)
      → lib.is_not_found e ≡ true
      → lib.set_controller_reference job (build_workflow job (next_attempt job).0 template_name)
        ≡ ok wf
      → ((t : Trace E) → o.create_unstructured t wf ≡ ok tt)
      → Submitted job wf
          (next_attempt job).0
          (attempt_name job)
          (ensure_workflow lib (tracing o) template_name job t)
  unfolding ensure_workflow submit record_submission ◌>>=◌
  ensure_workflow-Submitted job wf e t w missing gone owned creatable =
      rw (missing _, gone, owned, creatable _, waiting-creates job w)
        (start_time-Submitted job _ _ job.status.start_time (there here))

module _ {E : Type 0} (lib : Library E) (o : Oracle E) (template_name : String)
    (req : NamespacedName) (job : TrainingJob) (read : o.get_job [] req ≡ ok job)
    (alive : lib.is_zero job.metadata.deletion_timestamp ≡ true)
    (held : lib.contains_finalizer job finalizer_name ≡ true) (waits : is_waiting job ≡ true)
    (writable : (t : Trace E) (j : TrainingJob) → o.update_job_status t j ≡ ok tt) where
  abbrev run : Result E CtrlResult × Trace E
  run = reconcile lib (tracing o) template_name req []

  module _ (wf : Fields) (e : E) (gone : lib.is_not_found e ≡ true)
      (missing : (t : Trace E) → o.get_unstructured t workflow_gvk (attempt_key job) ≡ err e)
      (owned : (j : TrainingJob)
        → j.metadata ≡ job.metadata
        → lib.set_controller_reference j (build_workflow job (next_attempt job).0 template_name)
          ≡ ok wf)
      (creatable : (t : Trace E) → o.create_unstructured t wf ≡ ok tt) where
    pub unlimited-Submitted :
        (d : E)
        → lib.is_not_found d ≡ true
        → ((t : Trace E) → o.get_quota t (quota_key job) ≡ err d)
        → Submitted job wf (next_attempt job).0 (attempt_name job) run
    unfolding reconcile reconcile_job advance quota_gate ◌>>=◌
    unlimited-Submitted d none_there unlimited =
        rw (read, alive, held, waiting-open job waits, waits, unlimited _, none_there)
          (ensure_workflow-Submitted lib o template_name writable job wf e _ waits missing gone
            (owned job refl) creatable)

    pub within-Submitted :
        (quota : GpuQuota) (peers : List TrainingJob)
        → ((t : Trace E) → o.get_quota t (quota_key job) ≡ ok quota)
        → ((t : Trace E) → o.list_jobs t job.metadata.namespace ≡ ok peers)
        → over_quota (used_gpus peers job.metadata.name) job.spec.gpus quota.spec.hard_gpus ≡ false
        → Submitted job wf (next_attempt job).0 (attempt_name job) run
    unfolding reconcile reconcile_job advance quota_gate weigh admit next_attempt workflow_name
        build_workflow workflow_params s3_path ◌>>=◌
    within-Submitted quota peers limited listed fits =
        rw (read, alive, held, waiting-open job waits, waits, limited _, listed _, fits)
          (elim (ensure_workflow-Submitted lib o template_name writable _ wf e _ waits missing gone
            (owned _ refl) creatable) [
              | submitted job' r k b m s p a n ↦ submitted job' r k b m s p a n
            ])
