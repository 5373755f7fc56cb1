-- ===== src/Convergence/Stored.antt =====
-- The job as a run leaves it on the API server.
use fyp.Common.{String, List, [], ◌∷◌, ◌==◌, ◌&&◌, Bool-cases, inl, inr, ◌≡◌, refl, ◌∙◌}
use fyp.Exec.{Result, ok, err, ◌>>=◌, ◌>>◌, pure, effect}
use fyp.Api.TrainingJob.{TrainingJob}
use fyp.Api.GpuQuota.{GpuQuota, gpu_quota_name}
use fyp.Quota.{used_gpus, count_queued}
use fyp.Platform.{Library, CtrlResult, NamespacedName}
use fyp.Trace.{Trace, Oracle, tracing, updated_job_status, listed_jobs, got_quota}
use fyp.Lifecycle.{Stage, stage_of}
use fyp.Controller.Status.{report_usage, list_for_usage, update_quota_status}
use fyp.Controller.Workflows.{finish}
use fyp.Controller.Ttl.{requeue}

-- The object of the last status write that was accepted, or else the object that was read.
abbrev pub stored : {E : Type 0} → TrainingJob → Trace E → TrainingJob
stored base [] = base
stored base (updated_job_status job (ok x) ∷ t) = job
stored base (c ∷ t) = stored base t

-- A run that began with `base` has left a job with `job`'s metadata and spec in the stage `s`.
pub record Stands {E : Type 0} (base job : TrainingJob) (s : Stage) (t : Trace E) : Type 0 where
  pub metadata : (stored base t).metadata ≡ job.metadata
  pub spec : (stored base t).spec ≡ job.spec
  pub stage : stage_of (stored base t) ≡ s

-- It has, and returned no error.
pub record Leaves {E : Type 0} (base job : TrainingJob) (s : Stage)
    (after : Result E CtrlResult × Trace E) : Type 0 where
  pub result : CtrlResult
  pub returned : after.0 ≡ ok result
  pub stands : Stands base job s after.1

abbrev usage_key : String → NamespacedName
usage_key namespace = record { namespace = namespace; name = gpu_quota_name }

pub Leaves-transport :
    {E : Type 0} {base job job' : TrainingJob} {s : Stage} {after : Result E CtrlResult × Trace E}
    → job'.metadata ≡ job.metadata
    → job'.spec ≡ job.spec
    → Leaves base job' s after
    → Leaves base job s after
Leaves-transport m p left = record {
  result = left.result;
  returned = left.returned;
  stands = record {
    metadata = left.stands.metadata ∙ m;
    spec = left.stands.spec ∙ p;
    stage = left.stands.stage;
  };
}

module _ {E : Type 0} (o : Oracle E) (base : TrainingJob) where
  report_usage-stored :
      (quota : GpuQuota) (r : Result E (List TrainingJob)) (t : Trace E)
      → stored base (report_usage (tracing o) quota r t) ≡ stored base t
  unfolding report_usage ◌>>=◌
  report_usage-stored quota (err e) t = refl
  report_usage-stored quota (ok jobs) t =
      elim (Bool-cases (
        quota.status.used_gpus == used_gpus jobs ""
        && quota.status.queued_jobs == count_queued jobs)) [
          | inl current ↦ rw current refl
          | inr stale ↦ rw stale refl
        ]

  list_for_usage-stored :
      (namespace : String) (r : Result E GpuQuota) (t : Trace E)
      → stored base (list_for_usage (tracing o) namespace r t) ≡ stored base t
  unfolding list_for_usage ◌>>=◌
  list_for_usage-stored namespace (err e) t = refl
  list_for_usage-stored namespace (ok quota) t =
      report_usage-stored quota (o.list_jobs t namespace)
        (listed_jobs namespace (o.list_jobs t namespace) ∷ t)

  -- The refresh of the quota's status does not touch the job.
  update_quota_status-stored :
      (namespace : String) (t : Trace E)
      → stored base (update_quota_status (tracing o) namespace t) ≡ stored base t
  unfolding update_quota_status
  update_quota_status-stored namespace t =
      list_for_usage-stored namespace (o.get_quota t (usage_key namespace))
        (got_quota (usage_key namespace) (o.get_quota t (usage_key namespace)) ∷ t)

  pub refresh-Stands :
      {job : TrainingJob} {stage : Stage} (namespace : String) (t : Trace E)
      → Stands base job stage t
      → Stands base job stage (update_quota_status (tracing o) namespace t)
  refresh-Stands namespace t before =
      let u = update_quota_status-stored namespace t in
      record { metadata = rw u before.metadata; spec = rw u before.spec; stage = rw u before.stage }

  -- The refresh behind a write.
  pub refresh-Leaves :
      {job job' : TrainingJob} {s : Stage} (t : Trace E) (namespace : String) (x : CtrlResult)
      → stored base t ≡ job'
      → job'.metadata ≡ job.metadata
      → job'.spec ≡ job.spec
      → stage_of job' ≡ s
      → Leaves base job s ((effect {E = E} (update_quota_status (tracing o) namespace) >> pure x) t)
  unfolding ◌>>=◌
  refresh-Leaves t namespace x e m p q = record {
    result = x;
    returned = refl;
    stands =
        refresh-Stands namespace t (record { metadata = rw e m; spec = rw e p; stage = rw e q });
  }

  pub finish-Leaves :
      {job : TrainingJob} {s : Stage} (lib : Library E) (job' : TrainingJob) (t : Trace E)
      → ((t : Trace E) (j : TrainingJob) → o.update_job_status t j ≡ ok tt)
      → job'.metadata ≡ job.metadata
      → job'.spec ≡ job.spec
      → stage_of job' ≡ s
      → Leaves base job s (finish lib (tracing o) job' t)
  unfolding finish ◌>>=◌
  finish-Leaves lib job' t writable m p q =
      rw (writable _ _) (refresh-Leaves _ job'.metadata.namespace requeue refl m p q)
