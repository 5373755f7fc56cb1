-- ===== src/Controller/Status.antt =====
-- `setCondition` and `updateQuotaStatus`.
use fyp.Common.{String, List, ◌&&◌, if◌then◌else◌, ◌==◌}
use fyp.Common.Words.{Int32}
use fyp.Exec.{Result, ok, err}
use fyp.Api.Conditions.{ConditionStatus}
use fyp.Api.TrainingJob.{TrainingJob}
use fyp.Api.GpuQuota.{GpuQuota, gpu_quota_name}
use fyp.Quota.{used_gpus, count_queued}
use fyp.Platform.{Library, Client}

unfoldable pub set_condition :
    {E : Type 0}
    → Library E
    → TrainingJob
    → String
    → ConditionStatus
    → String
    → String
    → TrainingJob
set_condition lib job cond_type status reason message = record job {
  status = record job.status {
    conditions = lib.set_status_condition job.status.conditions (record {
      type = cond_type;
      status = status;
      reason = reason;
      message = message;
      observed_generation = job.metadata.generation;
    });
  };
}

-- The status as it is to be written.
abbrev pub with_usage : GpuQuota → Int32 → Int32 → GpuQuota
with_usage quota used queued = record quota {
  status = record { used_gpus = used; queued_jobs = queued };
}

module _ {E W : Type 0} (c : Client E W) where
  -- The three parts of `updateQuotaStatus`, cut at its two early returns. It has no result: every
  -- error is passed over, the last one with a log line.
  unfoldable pub report_usage : GpuQuota → Result E (List TrainingJob) → W → W
  report_usage quota (err _) w = w
  report_usage quota (ok jobs) w =
      let used = used_gpus jobs "" in
      let queued = count_queued jobs in
      if quota.status.used_gpus == used && quota.status.queued_jobs == queued
      then w
      else (c.update_quota_status (with_usage quota used queued) w).1

  unfoldable pub list_for_usage : String → Result E GpuQuota → W → W
  unfolding report_usage
  list_for_usage namespace (err _) w = w
  list_for_usage namespace (ok quota) w =
      let (listed, w') = c.list_jobs namespace w in report_usage quota listed w'

  unfoldable pub update_quota_status : String → W → W
  unfolding list_for_usage
  update_quota_status namespace w =
      let (got, w') = c.get_quota (record { namespace = namespace; name = gpu_quota_name }) w in
      list_for_usage namespace got w'
