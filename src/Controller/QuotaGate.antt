-- ===== src/Controller/QuotaGate.antt =====
-- `quotaGate`.
use Prim.Native.String.{◌++◌}
use fyp.Common.{List, Bool, true, false, ◌*◌, if◌then◌else◌}
use fyp.Common.Words.{Int32, Int64, add32, lt32}
use fyp.Common.Decimal.{show_int32}
use fyp.GoTime.{second}
use fyp.Exec.{Exec, Result, ok, err, pure, raise, try, effect, ◌>>=◌, ◌>>◌}
use fyp.Api.Conditions.{
  condition_true, condition_false, condition_quota_granted, reason_quota_exceeded,
  reason_quota_available,
}
use fyp.Api.TrainingJob.{TrainingJob, ◌==ᵖ◌, queued}
use fyp.Api.GpuQuota.{GpuQuota, gpu_quota_name}
use fyp.Quota.{used_gpus}
use fyp.Platform.{Library, Client, CtrlResult, warning}
use fyp.Controller.Status.{set_condition, update_quota_status}
use fyp.Controller.Ttl.{done}

abbrev pub queued_requeue_interval : Int64
queued_requeue_interval = 15 * second

-- `admitted`, the result to return if the job must wait, and the job with its new condition.
pub record Admission : Type 0 where
  pub admitted : Bool
  pub result : CtrlResult
  pub job : TrainingJob

-- used+job.Spec.GPUs > quota.Spec.HardGPUs
abbrev pub over_quota : Int32 → Int32 → Int32 → Bool
over_quota used gpus hard = lt32 hard (add32 used gpus)

abbrev pub with_phase_queued : TrainingJob → TrainingJob
with_phase_queued job = record job { status = record job.status { phase = queued } }

-- The event is recorded when the job was not Queued before.
unfoldable pub announce : {E W : Type 0} → Client E W → TrainingJob → Int32 → Int32 → W → W
announce c job used hard w =
    if job.status.phase ==ᵖ queued
    then w
    else c.eventf job warning "QuotaExceeded"
        ("Queued: "
          ++ (show_int32 job.spec.gpus
              ++ (" GPU(s) requested, "
                  ++ (show_int32 used ++ ("/" ++ (show_int32 hard ++ " in use"))))))
        w

module _ {E W : Type 0} (lib : Library E) (c : Client E W) where
  -- The branch over the quota: park the job.
  unfoldable pub park : TrainingJob → Int32 → Int32 → Exec W E Admission
  unfolding set_condition announce
  park job used hard = do
    effect (announce c job used hard)
    let parked =
        set_condition lib (with_phase_queued job) condition_quota_granted condition_false
          reason_quota_exceeded
          (show_int32 used
            ++ ("/" ++ (show_int32 hard ++ (" GPUs in use; need " ++ show_int32 job.spec.gpus))))
    c.update_job_status parked
    effect (update_quota_status c job.metadata.namespace)
    pure (record {
      admitted = false;
      result = record { requeue = false; requeue_after = queued_requeue_interval };
      job = parked;
    })

  unfoldable pub admit : TrainingJob → Int32 → Int32 → Exec W E Admission
  unfolding set_condition
  admit job used hard = pure (record {
    admitted = true;
    result = done;
    job =
        set_condition lib job condition_quota_granted condition_true reason_quota_available
          (show_int32 used ++ ("/" ++ (show_int32 hard ++ " GPUs in use")));
  })

  -- The sum is compared with the quota.
  unfoldable pub weigh : TrainingJob → GpuQuota → List TrainingJob → Exec W E Admission
  weigh job quota peers =
      let used = used_gpus peers job.metadata.name in
      if over_quota used job.spec.gpus quota.spec.hard_gpus
      then park job used quota.spec.hard_gpus
      else admit job used quota.spec.hard_gpus

  -- The rest of `quotaGate` behind the Get of the quota. With no quota, usage is unlimited.
  unfoldable pub measure : TrainingJob → Result E GpuQuota → Exec W E Admission
  unfolding weigh
  measure job (err e) =
      if lib.is_not_found e
      then pure (record { admitted = true; result = done; job = job })
      else raise e
  measure job (ok quota) = do peers ← c.list_jobs job.metadata.namespace; weigh job quota peers

  unfoldable pub quota_gate : TrainingJob → Exec W E Admission
  unfolding measure
  quota_gate job = do
    got ← try (c.get_quota (record { namespace = job.metadata.namespace; name = gpu_quota_name }))
    measure job got
