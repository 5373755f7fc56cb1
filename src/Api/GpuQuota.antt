-- ===== src/Api/GpuQuota.antt =====
-- operator/api/v1alpha1/gpuquota_types.go
use fyp.Common.{String}
use fyp.Common.Words.{Int32}
use fyp.Api.TrainingJob.{ObjectMeta}

pub record GpuQuotaSpec : Type 0 where
  pub hard_gpus : Int32

pub record GpuQuotaStatus : Type 0 where
  pub used_gpus : Int32
  pub queued_jobs : Int32

pub record GpuQuota : Type 0 where
  pub metadata : ObjectMeta
  pub spec : GpuQuotaSpec
  pub status : GpuQuotaStatus

abbrev pub gpu_quota_name : String
gpu_quota_name = "default"
