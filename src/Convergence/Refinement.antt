-- ===== src/Convergence/Refinement.antt =====
-- One run of `Reconcile` is one step of the abstract machine.
use Prim.Native.String.{◌++◌}
use fyp.Common.{
  String, Bool, true, false, not, Option, List, [], ◌∷◌, ◌≡◌, refl, inl, inr, Bool-cases, arith,
}
use fyp.Common.Words.{Int32}
use fyp.Exec.{Result, ok, err, ◌>>=◌}
use fyp.Api.TrainingJob.{TrainingJob, is_terminal, queued}
use fyp.Api.GpuQuota.{GpuQuota}
use fyp.Quota.{used_gpus}
use fyp.WorkflowBuilder.{
  Fields, workflow_gvk, workflow_name, build_workflow, workflow_params, s3_path,
}
use fyp.Platform.{Library, NamespacedName}
use fyp.Trace.{Trace, Oracle, tracing, got_job, got_quota, listed_jobs}
use fyp.Lifecycle.{stage_of, is_live_phase}
use fyp.Protocol.{attempt_key, quota_key}
use fyp.Controller.QuotaGate.{Admission, over_quota, park, admit, weigh, quota_gate}
use fyp.Controller.Workflows.{next_attempt}
use fyp.Controller.Reconcile.{finalizer_name, is_waiting, advance, reconcile_job, reconcile}
use fyp.Api.Conditions.{condition_true, condition_quota_granted, reason_quota_available}
use fyp.Common.Decimal.{show_int32}
use fyp.Controller.Status.{set_condition}
use fyp.Convergence.{Outcome, next}
use fyp.Convergence.Stored.{Stands, Leaves, Leaves-transport, refresh-Stands}
use fyp.Convergence.Attempt.{Finds, limit, ensure_workflow-Leaves}

-- Whether the quota that the API server answers with, if there is one, has room for the job beside
-- its peers.
pub data HasRoom {E : Type 0} (lib : Library E) (job : TrainingJob) (peers : List TrainingJob)
    : Result E GpuQuota → Bool → Type 0 where
  unlimited : (e : E) → lib.is_not_found e ≡ true → HasRoom lib job peers (err e) true
  limited :
      (quota : GpuQuota) (full : Bool)
      → over_quota (used_gpus peers job.metadata.name) job.spec.gpus quota.spec.hard_gpus ≡ full
      → HasRoom lib job peers (ok quota) (not full)

module _ {E : Type 0} (lib : Library E) (o : Oracle E)
    (writable : (t : Trace E) (j : TrainingJob) → o.update_job_status t j ≡ ok tt) where
  park-Stands :
      (job : TrainingJob) (used hard : Int32) (t : Trace E)
      → let after = park lib (tracing o) job used hard t in
        (adm : Admission) × (after.0 ≡ ok adm)
        × (adm.admitted ≡ false)
        × Stands job job (record (stage_of job) { phase = queued }) after.1
  unfolding park ◌>>=◌
  park-Stands job used hard t = rw (writable _ _) (
    _,
    refl,
    refl,
    refresh-Stands o job _ _ (record { metadata = refl; spec = refl; stage = refl }),
  )

module _ {E : Type 0} (lib : Library E) (o : Oracle E) (template_name : String)
    (req : NamespacedName) (job : TrainingJob) (read : o.get_job [] req ≡ ok job)
    (alive : lib.is_zero job.metadata.deletion_timestamp ≡ true)
    (held : lib.contains_finalizer job finalizer_name ≡ true)
    (live : is_live_phase job.status.phase ≡ true)
    (writable : (t : Trace E) (j : TrainingJob) → o.update_job_status t j ≡ ok tt)
    (deletable : (t : Trace E) (wf : Fields) → o.delete_unstructured t wf ≡ ok tt)
    (creatable : (t : Trace E) (wf : Fields) → o.create_unstructured t wf ≡ ok tt) (owned : Fields)
    (ownable : (j : TrainingJob)
      → j.metadata ≡ job.metadata
      → lib.set_controller_reference j (build_workflow job (next_attempt job).0 template_name)
        ≡ ok owned)
    (r : Result E Fields) (seen : Option Outcome)
    (got : (t : Trace E) → o.get_unstructured t workflow_gvk (attempt_key job) ≡ r)
    (finds : Finds lib r seen) where
  running-Leaves :
      is_waiting job ≡ false
      → (room : Bool)
      → Leaves job job
          (next (limit job) (stage_of job) room seen)
          (reconcile lib (tracing o) template_name req [])
  unfolding reconcile reconcile_job advance ◌>>=◌
  running-Leaves idle room =
      let unended : is_terminal job ≡ false = ground arith in
      rw (read, alive, held, unended, idle)
        (ensure_workflow-Leaves lib o job writable deletable template_name creatable job owned r
          seen _ (record { metadata = refl; spec = refl; stage = refl }) (ownable job refl) got
          finds)

  module _ (waits : is_waiting job ≡ true) (peers : List TrainingJob)
      (listed : (t : Trace E) → o.list_jobs t job.metadata.namespace ≡ ok peers) where
    waiting-Leaves :
        (q : Result E GpuQuota) (room : Bool)
        → ((t : Trace E) → o.get_quota t (quota_key job) ≡ q)
        → HasRoom lib job peers q room
        → Leaves job job
            (next (limit job) (stage_of job) room seen)
            (reconcile lib (tracing o) template_name req [])
    unfolding reconcile reconcile_job advance quota_gate weigh admit park next_attempt workflow_name
        build_workflow workflow_params s3_path ◌>>=◌
    waiting-Leaves _ _ limits (unlimited d none_there) =
        let unended : is_terminal job ≡ false = ground arith in
        rw (read, alive, held, unended, waits, limits _, none_there)
          (ensure_workflow-Leaves lib o job writable deletable template_name creatable job owned r
            seen _ (record { metadata = refl; spec = refl; stage = refl }) (ownable job refl) got
            finds)
    waiting-Leaves _ _ limits (limited quota false fits) =
        let unended : is_terminal job ≡ false = ground arith in
        let used = used_gpus peers job.metadata.name in
        let granted =
          set_condition lib job condition_quota_granted condition_true reason_quota_available
            (show_int32 used ++ ("/" ++ (show_int32 quota.spec.hard_gpus ++ " GPUs in use"))) in
        rw (read, alive, held, unended, waits, limits _, listed _, fits)
          (Leaves-transport {job' = granted} refl refl (
            ensure_workflow-Leaves lib o job writable deletable template_name creatable granted
              owned r seen _ (record { metadata = refl; spec = refl; stage = refl })
              (ownable granted refl) got finds))
    waiting-Leaves _ _ limits (limited quota true full) =
        let unended : is_terminal job ≡ false = ground arith in
        let before : Trace E =
          listed_jobs job.metadata.namespace (ok peers)
          ∷ got_quota (quota_key job) (ok quota)
          ∷ got_job req (ok job)
          ∷ [] in
        let (adm, a, q, stands) =
          park-Stands lib o writable job (used_gpus peers job.metadata.name) quota.spec.hard_gpus
            before in
        rw (read, alive, held, unended, waits, limits _, listed _, full, a, q)
          (record { result = adm.result; returned = refl; stands = stands })

  -- One run on a job in a live phase that has the finalizer and is not being deleted, where the API
  -- server takes every write of a status and of a Workflow and its deletion, answers the reads of the
  -- quota and of the Workflow with the object or with NotFound and lists the job's peers, and where
  -- the owner reference can be set: the run returns no error, and the job that it leaves on the API
  -- server has its metadata, its spec, and the stage that the abstract machine steps to, by whether
  -- the quota has room for the job beside its peers and by the Workflow found under the name of the
  -- job's attempt.
  pub reconcile-refines :
      (q : Result E GpuQuota) (peers : List TrainingJob) (room : Bool)
      → ((t : Trace E) → o.get_quota t (quota_key job) ≡ q)
      → ((t : Trace E) → o.list_jobs t job.metadata.namespace ≡ ok peers)
      → HasRoom lib job peers q room
      → Leaves job job
          (next (limit job) (stage_of job) room seen)
          (reconcile lib (tracing o) template_name req [])
  reconcile-refines q peers room limits listed has = elim (Bool-cases (is_waiting job)) [
    | inl waits ↦ waiting-Leaves waits peers listed q room limits has
    | inr idle ↦ running-Leaves idle room
  ]
