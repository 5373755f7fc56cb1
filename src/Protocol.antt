-- ===== src/Protocol.antt =====
-- The protocol of the reconciler: each call that one run of `Reconcile` may make, with the calls
-- that have to be answered before it. The file states the protocol; its children prove that the
-- functions of Controller keep to it.
pub mod Logic
pub mod Gate
pub mod Submit
pub mod Phases
pub mod Runs
pub use fyp.Trace.{Before, here, there}
use fyp.Common.{String, ℕ, ◌≤◌, List, [], ◌∷◌, Bool, true, false, some, ◌≡◌, ◌⊎◌, ◌||◌}
use fyp.Common.Words.{Int32, le32}
use fyp.Exec.{Result, ok, err}
use fyp.Api.TrainingJob.{
  TrainingJob, Time, is_terminal, TrainingJobPhase, queued, running, succeeded, pending, failed,
}
use fyp.Api.GpuQuota.{GpuQuota, gpu_quota_name}
use fyp.Quota.{used_gpus, count_queued}
use fyp.WorkflowStatus.{map_workflow_phase}
use fyp.WorkflowBuilder.{
  Fields, GroupVersionKind, workflow_gvk, workflow_name, build_workflow, label_training_job,
  model_uri,
}
use fyp.Platform.{Library, NamespacedName, EventType}
use fyp.Trace.{
  Call, Trace, Rule, got_job, got_quota, got_unstructured, listed_jobs, updated_job, deleted_job,
  created_unstructured, deleted_unstructured, deleted_all_of, updated_job_status,
  updated_quota_status, read_clock, recorded,
}
use fyp.Lifecycle.{stage_of, Edge, is_waiting_phase, is_live_phase}
use fyp.Controller.Status.{with_usage}
use fyp.Controller.Ttl.{expiry}
use fyp.Controller.QuotaGate.{over_quota}
use fyp.Controller.Workflows.{workflow_phase, next_attempt}
use fyp.Controller.Reconcile.{finalizer_name}

-- The two jobs differ in their conditions at most.
pub record Same (job job' : TrainingJob) : Type 0 where
  pub metadata : job'.metadata ≡ job.metadata
  pub spec : job'.spec ≡ job.spec
  pub phase : job'.status.phase ≡ job.status.phase
  pub attempts : job'.status.attempts ≡ job.status.attempts

-- A status write leaves metadata and spec alone and follows an edge.
pub record Follows (job job' : TrainingJob) : Type 0 where
  pub metadata : job'.metadata ≡ job.metadata
  pub spec : job'.spec ≡ job.spec
  pub edge : Edge job.spec.retry.backoff_limit (stage_of job) (stage_of job')

abbrev pub quota_key : TrainingJob → NamespacedName
quota_key job = record { namespace = job.metadata.namespace; name = gpu_quota_name }

-- The Workflow of the attempt that the run ensures.
abbrev pub attempt_name : TrainingJob → String
attempt_name job = workflow_name job (next_attempt job).0

abbrev pub attempt_key : TrainingJob → NamespacedName
attempt_key job = record { namespace = job.metadata.namespace; name = attempt_name job }

module _ {E : Type 0} (lib : Library E) (job : TrainingJob) where
  -- What the quota gate found.
  pub data Measured (over : Bool) (t : Trace E) : Type 0 where
    measured :
        (quota : GpuQuota) (peers : List TrainingJob)
        → Before (got_quota (quota_key job) (ok quota)) t
        → Before (listed_jobs job.metadata.namespace (ok peers)) t
        → over_quota (used_gpus peers job.metadata.name) job.spec.gpus quota.spec.hard_gpus ≡ over
        → Measured over t

  pub data Admitted (t : Trace E) : Type 0 where
    started : is_waiting_phase job.status.phase ≡ false → Admitted t
    unlimited :
        (e : E)
        → Before (got_quota (quota_key job) (err e)) t
        → lib.is_not_found e ≡ true
        → Admitted t
    within : Measured false t → Admitted t

  -- The Workflow of the attempt was read, in a phase that is mapped to this one.
  pub data Observed (phase : TrainingJobPhase) (terminal : Bool) (wf : Fields) (t : Trace E)
      : Type 0 where
    observed :
        Before (got_unstructured workflow_gvk (attempt_key job) (ok wf)) t
        → map_workflow_phase (workflow_phase lib wf) ≡ (phase, terminal)
        → Observed phase terminal wf t

  -- The answer of a Delete after which the object is not there.
  abbrev pub IsGone : Result E (Unit {0}) → Type 0
  IsGone (ok _) = Unit {0}
  IsGone (err e) = lib.is_not_found e ≡ true

  -- The answer of the DeleteAllOf after which the finalizer may go.
  abbrev pub IsClean : Result E (Unit {0}) → Type 0
  IsClean (ok _) = Unit {0}
  IsClean (err e) = (lib.is_not_found e || lib.is_no_match_error e) ≡ true

  abbrev pub owned : List (String × String)
  owned = (label_training_job, job.metadata.name) ∷ []

  -- Why a status may be written.
  pub data Grounds (job' : TrainingJob) (t : Trace E) : Type 0 where
    parked : Measured true t → job'.status.phase ≡ queued → Grounds job' t
    submitted :
        (wf : Fields)
        → Before (created_unstructured wf (ok tt)) t
        → job'.status.phase ≡ running
        → job'.status.attempts ≡ (next_attempt job).0
        → job'.status.workflow_name ≡ attempt_name job
        → Grounds job' t
    followed :
        (wf : Fields)
        → Admitted t
        → Observed running false wf t
        → job'.status.phase ≡ running
        → job'.status.attempts ≡ job.status.attempts
        → job'.status.workflow_name ≡ attempt_name job
        → Grounds job' t
    completed :
        (wf : Fields) (now : Time)
        → Observed succeeded true wf t
        → Before (read_clock now) t
        → job'.status.phase ≡ succeeded
        → job'.status.completion_time ≡ some now
        → job'.status.model_uri ≡ model_uri job
        → Grounds job' t
    retried :
        (wf : Fields) (r : Result E (Unit {0}))
        → Before (deleted_unstructured wf r) t
        → IsGone r
        → job'.status.phase ≡ pending
        → Grounds job' t
    gave_up :
        (wf : Fields) (now : Time)
        → Observed failed true wf t
        → Before (read_clock now) t
        → le32 job.status.attempts job.spec.retry.backoff_limit ≡ false
        → job'.status.phase ≡ failed
        → job'.status.completion_time ≡ some now
        → Grounds job' t

  -- The calls of a run that read `job`, each with the calls before it.
  pub data Permitted (template_name : String) : Call E → Trace E → Type 0 where
    reads_job : {n : NamespacedName} → Permitted template_name (got_job n (ok job)) []
    reads_quota :
        {n : NamespacedName} {r : Result E GpuQuota} {t : Trace E}
        → Permitted template_name (got_quota n r) t
    reads_workflow :
        {g : GroupVersionKind} {n : NamespacedName} {r : Result E Fields} {t : Trace E}
        → Permitted template_name (got_unstructured g n r) t
    lists :
        {n : String} {r : Result E (List TrainingJob)} {t : Trace E}
        → Permitted template_name (listed_jobs n r) t
    reads_clock : {now : Time} {t : Trace E} → Permitted template_name (read_clock now) t
    records :
        {j : TrainingJob} {type : EventType} {reason message : String} {t : Trace E}
        → Permitted template_name (recorded j type reason message) t
    -- deletion
    cleans :
        {r : Result E (Unit {0})} {t : Trace E}
        → lib.is_zero job.metadata.deletion_timestamp ≡ false
        → Permitted template_name (deleted_all_of workflow_gvk job.metadata.namespace owned r) t
    releases :
        {r : Result E (Unit {0})} {t : Trace E} (s : Result E (Unit {0}))
        → lib.is_zero job.metadata.deletion_timestamp ≡ false
        → Before (deleted_all_of workflow_gvk job.metadata.namespace owned s) t
        → IsClean s
        → Permitted template_name (updated_job (lib.remove_finalizer job finalizer_name) r) t
    adopts :
        {r : Result E (Unit {0})} {t : Trace E}
        → lib.is_zero job.metadata.deletion_timestamp ≡ true
        → lib.contains_finalizer job finalizer_name ≡ false
        → Permitted template_name (updated_job (lib.add_finalizer job finalizer_name) r) t
    expires :
        {r : Result E (Unit {0})} {t : Trace E} (deadline now : Time)
        → is_terminal job ≡ true
        → expiry job ≡ some deadline
        → Before (read_clock now) t
        → deadline ≤ now
        → Permitted template_name (deleted_job job r) t
    submits :
        {r : Result E (Unit {0})} {t : Trace E} (owner : TrainingJob) (wf : Fields) (e : E)
        → is_live_phase job.status.phase ≡ true
        → Admitted t
        → Before (got_unstructured workflow_gvk (attempt_key job) (err e)) t
        → lib.is_not_found e ≡ true
        → Same job owner
        → lib.set_controller_reference owner
            (build_workflow owner (next_attempt job).0 template_name)
          ≡ ok wf
        → Permitted template_name (created_unstructured wf r) t
    withdraws :
        {r : Result E (Unit {0})} {t : Trace E} (wf : Fields)
        → is_live_phase job.status.phase ≡ true
        → Observed failed true wf t
        → le32 job.status.attempts job.spec.retry.backoff_limit ≡ true
        → Permitted template_name (deleted_unstructured wf r) t
    writes :
        {r : Result E (Unit {0})} {t : Trace E} (job' : TrainingJob)
        → Follows job job'
        → Grounds job' t
        → Permitted template_name (updated_job_status job' r) t
    reports :
        {r : Result E (Unit {0})} {t : Trace E} (quota : GpuQuota) (jobs : List TrainingJob)
        → Before (got_quota (quota_key job) (ok quota)) t
        → Before (listed_jobs job.metadata.namespace (ok jobs)) t
        → Permitted template_name
            (updated_quota_status (with_usage quota (used_gpus jobs "") (count_queued jobs)) r)
            t
