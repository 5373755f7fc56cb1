-- ===== src/Memory/Cells.antt =====
-- The zero values of Go's types, and the reads of cells. Go's types rule out a reference to a cell of
-- another type; such a read gives the zero value here.
use fyp.Common.{String, none, List, []}
use fyp.Common.Words.{Int32}
use fyp.Api.TrainingJob.{Time, ModelSpec, DatasetSpec, RetrySpec, OutputSpec, unset}
use fyp.Api.GpuQuota.{GpuQuotaSpec, GpuQuotaStatus}
use fyp.Memory.{
  Types, Block, SpecStruct, StatusStruct, JobStruct, QuotaStruct, ListStruct, int32, time, text_map,
  conditions, jobs, quotas, model_spec, dataset_spec, retry_spec, output_spec, job_spec, job_status,
  job, job_list, quota_spec, quota_status, quota, quota_list,
}

abbrev pub zero_model_spec : ModelSpec
zero_model_spec = record { name = "" }

abbrev pub zero_dataset_spec : DatasetSpec
zero_dataset_spec = record { name = "" }

abbrev pub zero_retry_spec : RetrySpec
zero_retry_spec = record { backoff_limit = 0 }

abbrev pub zero_output_spec : OutputSpec
zero_output_spec = record { bucket = "" }

abbrev pub zero_quota_spec : GpuQuotaSpec
zero_quota_spec = record { hard_gpus = 0 }

abbrev pub zero_quota_status : GpuQuotaStatus
zero_quota_status = record { used_gpus = 0; queued_jobs = 0 }

abbrev pub zero_job_spec : SpecStruct
zero_job_spec = record {
  model = zero_model_spec;
  dataset = zero_dataset_spec;
  hyperparameters = none;
  gpus = 0;
  retry = zero_retry_spec;
  ttl_seconds_after_finished = none;
  output = zero_output_spec;
}

abbrev pub zero_job_status : StatusStruct
zero_job_status = record {
  phase = unset;
  attempts = 0;
  workflow_name = "";
  model_uri = "";
  start_time = none;
  completion_time = none;
  conditions = none;
}

-- The zero values of metav1's types.
pub record Zeros (types : Types) : Type 0 where
  pub type_meta : types.TypeMeta
  pub object_meta : types.ObjectMeta
  pub list_meta : types.ListMeta
  pub condition : types.Condition

module _ {types : Types} where
  abbrev pub int32_at : Block types → Int32
  int32_at (int32 n) = n
  int32_at _ = 0

  abbrev pub time_at : Block types → Time
  time_at (time t) = t
  time_at _ = 0

  abbrev pub text_map_at : Block types → List (String × String)
  text_map_at (text_map m) = m
  text_map_at _ = []

  abbrev pub conditions_at : Block types → List types.Condition
  conditions_at (conditions cs) = cs
  conditions_at _ = []

  abbrev pub jobs_at : Block types → List (JobStruct types)
  jobs_at (jobs js) = js
  jobs_at _ = []

  abbrev pub quotas_at : Block types → List (QuotaStruct types)
  quotas_at (quotas qs) = qs
  quotas_at _ = []

  abbrev pub model_spec_at : Block types → ModelSpec
  model_spec_at (model_spec s) = s
  model_spec_at _ = zero_model_spec

  abbrev pub dataset_spec_at : Block types → DatasetSpec
  dataset_spec_at (dataset_spec s) = s
  dataset_spec_at _ = zero_dataset_spec

  abbrev pub retry_spec_at : Block types → RetrySpec
  retry_spec_at (retry_spec s) = s
  retry_spec_at _ = zero_retry_spec

  abbrev pub output_spec_at : Block types → OutputSpec
  output_spec_at (output_spec s) = s
  output_spec_at _ = zero_output_spec

  abbrev pub quota_spec_at : Block types → GpuQuotaSpec
  quota_spec_at (quota_spec s) = s
  quota_spec_at _ = zero_quota_spec

  abbrev pub quota_status_at : Block types → GpuQuotaStatus
  quota_status_at (quota_status s) = s
  quota_status_at _ = zero_quota_status

  abbrev pub job_spec_at : Block types → SpecStruct
  job_spec_at (job_spec s) = s
  job_spec_at _ = zero_job_spec

  abbrev pub job_status_at : Block types → StatusStruct
  job_status_at (job_status s) = s
  job_status_at _ = zero_job_status

module _ {types : Types} (zeros : Zeros types) where
  abbrev pub zero_job : JobStruct types
  zero_job = record {
    type_meta = zeros.type_meta;
    metadata = zeros.object_meta;
    spec = zero_job_spec;
    status = zero_job_status;
  }

  abbrev pub zero_quota : QuotaStruct types
  zero_quota = record {
    type_meta = zeros.type_meta;
    metadata = zeros.object_meta;
    spec = zero_quota_spec;
    status = zero_quota_status;
  }

  abbrev pub zero_list : ListStruct types
  zero_list = record { type_meta = zeros.type_meta; metadata = zeros.list_meta; items = none }

  abbrev pub job_at : Block types → JobStruct types
  job_at (job j) = j
  job_at _ = zero_job

  abbrev pub quota_at : Block types → QuotaStruct types
  quota_at (quota q) = q
  quota_at _ = zero_quota

  abbrev pub job_list_at : Block types → ListStruct types
  job_list_at (job_list l) = l
  job_list_at _ = zero_list

  abbrev pub quota_list_at : Block types → ListStruct types
  quota_list_at (quota_list l) = l
  quota_list_at _ = zero_list
