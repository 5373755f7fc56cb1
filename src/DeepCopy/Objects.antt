-- ===== src/DeepCopy/Objects.antt =====
-- DeepCopy of each struct, and DeepCopyObject.
use fyp.Common.{Option, none, some}
use fyp.Memory.{
  Ref, Types, Mem, ◌>>=◌, pure, model_spec, dataset_spec, retry_spec, output_spec, job_spec,
  job_status, job, job_list, quota_spec, quota_status, quota, quota_list,
}
use fyp.Memory.Cells.{
  Zeros, zero_model_spec, zero_dataset_spec, zero_retry_spec, zero_output_spec, zero_quota_spec,
  zero_quota_status, zero_job_spec, zero_job_status, zero_job, zero_quota, zero_list, model_spec_at,
  dataset_spec_at, retry_spec_at, output_spec_at, quota_spec_at, quota_status_at, job_spec_at,
  job_status_at, job_at, quota_at, job_list_at, quota_list_at,
}
use fyp.DeepCopy.{MetaCopies, deep_copy}
use fyp.DeepCopy.Structs.{
  model_spec_into, dataset_spec_into, retry_spec_into, output_spec_into, quota_spec_into,
  quota_status_into, job_spec_into, job_status_into, job_into, quota_into, job_list_into,
  quota_list_into,
}

-- A runtime.Object of the API group: a pointer with its type, which may be nil.
pub data RuntimeObject : Type 0 where
  training_job training_job_list gpu_quota gpu_quota_list : Option Ref → RuntimeObject

-- `if c := …; c != nil { return c }; return nil`. The interface is nil, rather than a nil pointer with
-- its type.
abbrev pub as_object : (Option Ref → RuntimeObject) → Option Ref → Option RuntimeObject
as_object type none = none
as_object type (some p) = some (type (some p))

module _ {types : Types} where
  unfoldable pub copy_model_spec : Option Ref → Mem types (Option Ref)
  unfolding deep_copy
  copy_model_spec = deep_copy model_spec_at model_spec zero_model_spec model_spec_into

  unfoldable pub copy_dataset_spec : Option Ref → Mem types (Option Ref)
  unfolding deep_copy
  copy_dataset_spec = deep_copy dataset_spec_at dataset_spec zero_dataset_spec dataset_spec_into

  unfoldable pub copy_retry_spec : Option Ref → Mem types (Option Ref)
  unfolding deep_copy
  copy_retry_spec = deep_copy retry_spec_at retry_spec zero_retry_spec retry_spec_into

  unfoldable pub copy_output_spec : Option Ref → Mem types (Option Ref)
  unfolding deep_copy
  copy_output_spec = deep_copy output_spec_at output_spec zero_output_spec output_spec_into

  unfoldable pub copy_quota_spec : Option Ref → Mem types (Option Ref)
  unfolding deep_copy
  copy_quota_spec = deep_copy quota_spec_at quota_spec zero_quota_spec quota_spec_into

  unfoldable pub copy_quota_status : Option Ref → Mem types (Option Ref)
  unfolding deep_copy
  copy_quota_status = deep_copy quota_status_at quota_status zero_quota_status quota_status_into

  unfoldable pub copy_job_spec : Option Ref → Mem types (Option Ref)
  unfolding deep_copy job_spec_into
  copy_job_spec = deep_copy job_spec_at job_spec zero_job_spec job_spec_into

  module _ (zeros : Zeros types) (copies : MetaCopies types) where
    unfoldable pub copy_job_status : Option Ref → Mem types (Option Ref)
    unfolding deep_copy job_status_into
    copy_job_status =
        deep_copy job_status_at job_status zero_job_status (job_status_into zeros copies)

    unfoldable pub copy_job : Option Ref → Mem types (Option Ref)
    unfolding deep_copy job_into
    copy_job = deep_copy (job_at zeros) job (zero_job zeros) (job_into zeros copies)

    unfoldable pub copy_quota : Option Ref → Mem types (Option Ref)
    unfolding deep_copy quota_into
    copy_quota = deep_copy (quota_at zeros) quota (zero_quota zeros) (quota_into zeros copies)

    unfoldable pub copy_job_list : Option Ref → Mem types (Option Ref)
    unfolding deep_copy job_list_into
    copy_job_list =
        deep_copy (job_list_at zeros) job_list (zero_list zeros) (job_list_into zeros copies)

    unfoldable pub copy_quota_list : Option Ref → Mem types (Option Ref)
    unfolding deep_copy quota_list_into
    copy_quota_list =
        deep_copy (quota_list_at zeros) quota_list (zero_list zeros) (quota_list_into zeros copies)

    -- The four methods DeepCopyObject.
    unfoldable pub copy_job_object : Option Ref → Mem types (Option RuntimeObject)
    unfolding copy_job
    copy_job_object p = do c ← copy_job p; pure (as_object training_job c)

    unfoldable pub copy_job_list_object : Option Ref → Mem types (Option RuntimeObject)
    unfolding copy_job_list
    copy_job_list_object p = do c ← copy_job_list p; pure (as_object training_job_list c)

    unfoldable pub copy_quota_object : Option Ref → Mem types (Option RuntimeObject)
    unfolding copy_quota
    copy_quota_object p = do c ← copy_quota p; pure (as_object gpu_quota c)

    unfoldable pub copy_quota_list_object : Option Ref → Mem types (Option RuntimeObject)
    unfolding copy_quota_list
    copy_quota_list_object p = do c ← copy_quota_list p; pure (as_object gpu_quota_list c)

    -- The call of the method through the interface.
    unfoldable pub deep_copy_object : RuntimeObject → Mem types (Option RuntimeObject)
    unfolding copy_job_object copy_job_list_object copy_quota_object copy_quota_list_object
    deep_copy_object (training_job p) = copy_job_object p
    deep_copy_object (training_job_list p) = copy_job_list_object p
    deep_copy_object (gpu_quota p) = copy_quota_object p
    deep_copy_object (gpu_quota_list p) = copy_quota_list_object p
