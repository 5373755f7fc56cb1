-- ===== src/DeepCopy/Structs.antt =====
-- DeepCopyInto of each struct: the value that it leaves in `*out`.
use fyp.Common.{Option, none, some}
use fyp.Api.TrainingJob.{ModelSpec, DatasetSpec, RetrySpec, OutputSpec}
use fyp.Api.GpuQuota.{GpuQuotaSpec, GpuQuotaStatus}
use fyp.Memory.{
  Ref, Types, Mem, ◌>>=◌, pure, SpecStruct, StatusStruct, JobStruct, QuotaStruct, ListStruct,
  conditions, jobs, quotas,
}
use fyp.Memory.Cells.{Zeros, zero_job, zero_quota, conditions_at, jobs_at, quotas_at}
use fyp.DeepCopy.{MetaCopies, copy_map, copy_int32, copy_slice}

module _ {types : Types} where
  abbrev pub model_spec_into : ModelSpec → Mem types ModelSpec
  model_spec_into s = pure s

  abbrev pub dataset_spec_into : DatasetSpec → Mem types DatasetSpec
  dataset_spec_into s = pure s

  abbrev pub retry_spec_into : RetrySpec → Mem types RetrySpec
  retry_spec_into s = pure s

  abbrev pub output_spec_into : OutputSpec → Mem types OutputSpec
  output_spec_into s = pure s

  abbrev pub quota_spec_into : GpuQuotaSpec → Mem types GpuQuotaSpec
  quota_spec_into s = pure s

  abbrev pub quota_status_into : GpuQuotaStatus → Mem types GpuQuotaStatus
  quota_status_into s = pure s

  unfoldable pub job_spec_into : SpecStruct → Mem types SpecStruct
  unfolding copy_map copy_int32
  job_spec_into s = do
    hyperparameters ← copy_map s.hyperparameters
    ttl ← copy_int32 s.ttl_seconds_after_finished
    pure (record s {
      model = s.model;
      dataset = s.dataset;
      hyperparameters = hyperparameters;
      retry = s.retry;
      ttl_seconds_after_finished = ttl;
      output = s.output;
    })

  module _ (zeros : Zeros types) (copies : MetaCopies types) where
    -- *out = (*in).DeepCopy(), unless *in is nil
    unfoldable pub copy_time : Option Ref → Mem types (Option Ref)
    copy_time none = pure none
    copy_time (some p) = do out ← copies.time p; pure (some out)

    unfoldable pub job_status_into : StatusStruct → Mem types StatusStruct
    unfolding copy_time copy_slice
    job_status_into s = do
      start_time ← copy_time s.start_time
      completion_time ← copy_time s.completion_time
      new_conditions ←
          copy_slice conditions_at conditions zeros.condition copies.condition s.conditions
      pure (record s {
        start_time = start_time;
        completion_time = completion_time;
        conditions = new_conditions;
      })

    unfoldable pub job_into : JobStruct types → Mem types (JobStruct types)
    unfolding job_spec_into job_status_into
    job_into s = do
      metadata ← copies.object_meta s.metadata
      spec ← job_spec_into s.spec
      status ← job_status_into s.status
      pure (record s { type_meta = s.type_meta; metadata = metadata; spec = spec; status = status })

    unfoldable pub quota_into : QuotaStruct types → Mem types (QuotaStruct types)
    quota_into s = do
      metadata ← copies.object_meta s.metadata
      pure (record s {
        type_meta = s.type_meta;
        metadata = metadata;
        spec = s.spec;
        status = s.status;
      })

    unfoldable pub job_list_into : ListStruct types → Mem types (ListStruct types)
    unfolding job_into copy_slice
    job_list_into s = do
      metadata ← copies.list_meta s.metadata
      items ← copy_slice jobs_at jobs (zero_job zeros) job_into s.items
      pure (record s { type_meta = s.type_meta; metadata = metadata; items = items })

    unfoldable pub quota_list_into : ListStruct types → Mem types (ListStruct types)
    unfolding quota_into copy_slice
    quota_list_into s = do
      metadata ← copies.list_meta s.metadata
      items ← copy_slice quotas_at quotas (zero_quota zeros) quota_into s.items
      pure (record s { type_meta = s.type_meta; metadata = metadata; items = items })
