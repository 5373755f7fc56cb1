-- ===== src/Guarantees/Refresh.antt =====
-- The refresh of the quota's status behind a status write keeps what the run has done.
use fyp.Common.{String, List, ◌∷◌, ◌==◌, ◌&&◌, Bool-cases, inl, inr, ◌≡◌, refl}
use fyp.Exec.{Result, ok, err, ◌>>=◌, ◌>>◌, pure, effect}
use fyp.Api.TrainingJob.{TrainingJob}
use fyp.WorkflowBuilder.{Fields}
use fyp.Trace.{Call, Trace, Oracle, tracing, created_unstructured, got_quota}
use fyp.Protocol.{Before, there}
use fyp.Api.GpuQuota.{GpuQuota, gpu_quota_name}
use fyp.Platform.{NamespacedName}
use fyp.Quota.{used_gpus, count_queued}
use fyp.Controller.Status.{report_usage, list_for_usage, update_quota_status}

module _ {E : Type 0} (o : Oracle E) {c : Call E} where
  report_usage-Before :
      (quota : GpuQuota) (r : Result E (List TrainingJob)) {t : Trace E}
      → Before c t
      → Before c (report_usage (tracing o) quota r t)
  unfolding report_usage ◌>>=◌
  report_usage-Before quota (err e) b = b
  report_usage-Before quota (ok jobs) b =
      elim (Bool-cases (
        quota.status.used_gpus == used_gpus jobs ""
        && quota.status.queued_jobs == count_queued jobs)) [
          | inl current ↦ rw current b
          | inr stale ↦ rw stale (there b)
        ]

  list_for_usage-Before :
      (namespace : String) (r : Result E GpuQuota) {t : Trace E}
      → Before c t
      → Before c (list_for_usage (tracing o) namespace r t)
  unfolding list_for_usage ◌>>=◌
  list_for_usage-Before namespace (err e) b = b
  list_for_usage-Before namespace (ok quota) b = report_usage-Before quota _ (there b)

  update_quota_status-Before :
      (namespace : String) {t : Trace E}
      → Before c t
      → Before c (update_quota_status (tracing o) namespace t)
  unfolding update_quota_status ◌>>=◌
  update_quota_status-Before namespace b = list_for_usage-Before namespace _ (there b)

  -- The refresh of the quota's status loses no call.
  pub refreshed :
      {A : Type 0} (namespace : String) (x : A) {t : Trace E}
      → Before c t
      → let after = (effect {E = E} (update_quota_status (tracing o) namespace) >> pure x) t in
        (after.0 ≡ ok x) × Before c after.1
  unfolding ◌>>=◌
  refreshed namespace x {t} b = (refl, update_quota_status-Before namespace b)

module _ {E : Type 0} (o : Oracle E) {wf : Fields} {s : Result E (Unit {0})} where
  report_usage-created :
      (quota : GpuQuota) (r : Result E (List TrainingJob)) (t : Trace E)
      → Before (created_unstructured wf s) (report_usage (tracing o) quota r t)
      → Before (created_unstructured wf s) t
  unfolding report_usage ◌>>=◌
  report_usage-created quota (err e) t = λ b. b
  report_usage-created quota (ok jobs) t =
      elim (Bool-cases (
        quota.status.used_gpus == used_gpus jobs ""
        && quota.status.queued_jobs == count_queued jobs)) [
          | inl current ↦ rw current (λ b. b)
          | inr stale ↦ rw stale (λ b. elim b [ there k ↦ k ])
        ]

  list_for_usage-created :
      (namespace : String) (r : Result E GpuQuota) (t : Trace E)
      → Before (created_unstructured wf s) (list_for_usage (tracing o) namespace r t)
      → Before (created_unstructured wf s) t
  unfolding list_for_usage ◌>>=◌
  list_for_usage-created namespace (err e) t = λ b. b
  list_for_usage-created namespace (ok quota) t =
      λ b. elim (report_usage-created quota (o.list_jobs t namespace) _ b) [ there k ↦ k ]

  -- The refresh of the quota's status creates no object.
  pub refreshed-created :
      (namespace : String) (t : Trace E)
      → Before (created_unstructured wf s) (update_quota_status (tracing o) namespace t)
      → Before (created_unstructured wf s) t
  unfolding update_quota_status
  refreshed-created namespace t = λ b.
      let key : NamespacedName = record { namespace = namespace; name = gpu_quota_name } in
      let answer = o.get_quota t key in
      elim (list_for_usage-created namespace answer (got_quota key answer ∷ t) b) [ there k ↦ k ]
