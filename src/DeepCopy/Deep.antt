-- ===== src/DeepCopy/Deep.antt =====
-- DeepCopyInto of every struct makes a deep copy, if those of metav1's types do.
use fyp.Common.{refl}
use fyp.Memory.{Types, conditions, jobs, quotas}
use fyp.Memory.Cells.{Zeros, zero_job, zero_quota, conditions_at, jobs_at, quotas_at}
use fyp.Memory.Shape.{IsDeep, pair, pointer, each}
use fyp.Memory.Deep.{pair-IsDeep, via-IsDeep}
use fyp.DeepCopy.{MetaCopies}
use fyp.DeepCopy.Structs.{
  job_spec_into, copy_time, job_status_into, job_into, quota_into, job_list_into, quota_list_into,
}
use fyp.DeepCopy.Pointers.{copy_int32-IsDeep}
use fyp.DeepCopy.Slices.{copy_slice-IsDeep}
use fyp.DeepCopy.Maps.{copy_map-IsDeep}
use fyp.DeepCopy.Views
use fyp.DeepCopy.Views.{MetaShapes}

job_spec_into-IsDeep : {types : Types} → IsDeep (Views.job_spec {types = types}) job_spec_into
unfolding job_spec_into
job_spec_into-IsDeep s h l =
    via-IsDeep (pair Views.text_map Views.int32_pointer) Views.spec_part Views.spec_of
      (λ s v. record s { hyperparameters = v.0; ttl_seconds_after_finished = v.1 }) (λ s v. refl)
      (λ s v w. refl)
      (pair-IsDeep Views.text_map Views.int32_pointer copy_map-IsDeep copy_int32-IsDeep) s h l

module _ {types : Types} (shapes : MetaShapes types) (zeros : Zeros types)
    (copies : MetaCopies types) (deep_meta : IsDeep shapes.object_meta copies.object_meta)
    (deep_list_meta : IsDeep shapes.list_meta copies.list_meta)
    (deep_condition : IsDeep shapes.condition copies.condition)
    (deep_time : IsDeep Views.time_pointer (copy_time zeros copies)) where
  pub job_status_into-IsDeep : IsDeep (Views.job_status shapes) (job_status_into zeros copies)
  unfolding job_status_into
  job_status_into-IsDeep s h l =
      via-IsDeep (pair Views.time_pointer (pair Views.time_pointer (Views.conditions shapes)))
        Views.status_part Views.status_of
        (λ s v. record s { start_time = v.0; completion_time = v.1.0; conditions = v.1.1 })
        (λ s v. refl) (λ s v w. refl)
        (pair-IsDeep Views.time_pointer (pair Views.time_pointer (Views.conditions shapes))
          deep_time
          (pair-IsDeep Views.time_pointer (Views.conditions shapes) deep_time (
            copy_slice-IsDeep shapes.condition conditions_at conditions (λ cs. refl) zeros.condition
              deep_condition)))
        s h l

  pub job_into-IsDeep : IsDeep (Views.job shapes) (job_into zeros copies)
  unfolding job_into
  job_into-IsDeep s h l =
      via-IsDeep (pair shapes.object_meta (pair Views.job_spec (Views.job_status shapes)))
        Views.job_part Views.job_of
        (λ s v. record s { metadata = v.0; spec = v.1.0; status = v.1.1 }) (λ s v. refl)
        (λ s v w. refl)
        (pair-IsDeep shapes.object_meta (pair Views.job_spec (Views.job_status shapes)) deep_meta (
          pair-IsDeep Views.job_spec (Views.job_status shapes) job_spec_into-IsDeep
            job_status_into-IsDeep))
        s h l

  pub quota_into-IsDeep : IsDeep (Views.quota shapes) (quota_into zeros copies)
  unfolding quota_into
  quota_into-IsDeep s h l =
      via-IsDeep shapes.object_meta Views.quota_part Views.quota_of
        (λ s v. record s { metadata = v }) (λ s v. refl) (λ s v w. refl) deep_meta s h l

  pub job_list_into-IsDeep : IsDeep (Views.job_list shapes) (job_list_into zeros copies)
  unfolding job_list_into
  job_list_into-IsDeep s h l =
      via-IsDeep (pair shapes.list_meta (pointer (each (Views.job shapes)) jobs_at)) Views.list_part
        Views.list_of (λ s v. record s { metadata = v.0; items = v.1 }) (λ s v. refl)
        (λ s v w. refl)
        (pair-IsDeep shapes.list_meta (pointer (each (Views.job shapes)) jobs_at) deep_list_meta (
          copy_slice-IsDeep (Views.job shapes) jobs_at jobs (λ js. refl) (zero_job zeros)
            job_into-IsDeep))
        s h l

  pub quota_list_into-IsDeep : IsDeep (Views.quota_list shapes) (quota_list_into zeros copies)
  unfolding quota_list_into
  quota_list_into-IsDeep s h l =
      via-IsDeep (pair shapes.list_meta (pointer (each (Views.quota shapes)) quotas_at))
        Views.list_part Views.list_of (λ s v. record s { metadata = v.0; items = v.1 })
        (λ s v. refl) (λ s v w. refl)
        (pair-IsDeep shapes.list_meta (pointer (each (Views.quota shapes)) quotas_at) deep_list_meta
          (copy_slice-IsDeep (Views.quota shapes) quotas_at quotas (λ qs. refl) (zero_quota zeros)
            quota_into-IsDeep))
        s h l
