-- ===== src/DeepCopy/Views.antt =====
-- What the structs in memory stand for: the struct with its addresses cleared, and beside it what
-- they lead to.
use fyp.Common.{String, Option, none, List}
use fyp.Common.Words.{Int32}
use fyp.Api.TrainingJob.{Time}
use fyp.Api.GpuQuota.{GpuQuotaSpec, GpuQuotaStatus}
use fyp.Memory.{Ref, Types, SpecStruct, StatusStruct, JobStruct, QuotaStruct, ListStruct}
use fyp.Memory.Cells.{int32_at, time_at, text_map_at, conditions_at, jobs_at, quotas_at}
use fyp.Memory.Shape.{Shape, plain, pair, pointer, each, via}
use fyp.DeepCopy.Maps.{UniqueKeys}

-- What metav1's types stand for.
pub record MetaShapes (types : Types) : Type 1 where
  pub ObjectMeta : Type 0
  pub ListMeta : Type 0
  pub Condition : Type 0
  pub object_meta : Shape types types.ObjectMeta ObjectMeta
  pub list_meta : Shape types types.ListMeta ListMeta
  pub condition : Shape types types.Condition Condition

abbrev pub SpecPart : Type 0
SpecPart = Option (List (String × String)) × Option Int32

abbrev pub SpecValue : Type 0
SpecValue = SpecStruct × SpecPart

abbrev pub StatusPart : Type 0 → Type 0
StatusPart C = Option Time × (Option Time × Option (List C))

abbrev pub StatusValue : Type 0 → Type 0
StatusValue C = StatusStruct × StatusPart C

-- Of each struct, the part that holds addresses, and what the struct stands for, given what that
-- part stands for.
abbrev pub spec_part : SpecStruct → Option Ref × Option Ref
spec_part s = (s.hyperparameters, s.ttl_seconds_after_finished)

abbrev pub spec_of : SpecStruct → SpecPart → SpecValue
spec_of s v = (record s { hyperparameters = none; ttl_seconds_after_finished = none }, v)

abbrev pub status_part : StatusStruct → Option Ref × (Option Ref × Option Ref)
status_part s = (s.start_time, (s.completion_time, s.conditions))

abbrev pub status_of : {C : Type 0} → StatusStruct → StatusPart C → StatusValue C
status_of s v = (record s { start_time = none; completion_time = none; conditions = none }, v)

module _ {types : Types} where
  abbrev pub job_part : JobStruct types → types.ObjectMeta × (SpecStruct × StatusStruct)
  job_part j = (j.metadata, (j.spec, j.status))

  abbrev pub job_of : {V : Type 0} → JobStruct types → V → types.TypeMeta × V
  job_of j v = (j.type_meta, v)

  abbrev pub quota_part : QuotaStruct types → types.ObjectMeta
  quota_part q = q.metadata

  abbrev pub quota_of :
      {M : Type 0} → QuotaStruct types → M → types.TypeMeta × (M × (GpuQuotaSpec × GpuQuotaStatus))
  quota_of q v = (q.type_meta, (v, (q.spec, q.status)))

  abbrev pub list_part : ListStruct types → types.ListMeta × Option Ref
  list_part l = (l.metadata, l.items)

  abbrev pub list_of : {V : Type 0} → ListStruct types → V → types.TypeMeta × V
  list_of l v = (l.type_meta, v)

  abbrev pub int32_pointer : Shape types (Option Ref) (Option Int32)
  int32_pointer = pointer (plain (λ n. Unit {0})) int32_at

  abbrev pub time_pointer : Shape types (Option Ref) (Option Time)
  time_pointer = pointer (plain (λ t. Unit {0})) time_at

  abbrev pub text_map : Shape types (Option Ref) (Option (List (String × String)))
  text_map = pointer (plain UniqueKeys) text_map_at

  abbrev pub job_spec : Shape types SpecStruct SpecValue
  job_spec = via (pair text_map int32_pointer) spec_part spec_of

module _ {types : Types} (shapes : MetaShapes types) where
  abbrev pub JobValue : Type 0
  JobValue = types.TypeMeta × (shapes.ObjectMeta × (SpecValue × StatusValue shapes.Condition))

  abbrev pub QuotaValue : Type 0
  QuotaValue = types.TypeMeta × (shapes.ObjectMeta × (GpuQuotaSpec × GpuQuotaStatus))

  abbrev pub ListValue : Type 0 → Type 0
  ListValue V = types.TypeMeta × (shapes.ListMeta × Option (List V))

  abbrev pub conditions : Shape types (Option Ref) (Option (List shapes.Condition))
  conditions = pointer (each shapes.condition) conditions_at

  abbrev pub job_status : Shape types StatusStruct (StatusValue shapes.Condition)
  job_status = via (pair time_pointer (pair time_pointer conditions)) status_part status_of

  abbrev pub job : Shape types (JobStruct types) JobValue
  job = via (pair shapes.object_meta (pair job_spec job_status)) job_part job_of

  abbrev pub quota : Shape types (QuotaStruct types) QuotaValue
  quota = via shapes.object_meta quota_part quota_of

  abbrev pub job_list : Shape types (ListStruct types) (ListValue JobValue)
  job_list = via (pair shapes.list_meta (pointer (each job) jobs_at)) list_part list_of

  abbrev pub quota_list : Shape types (ListStruct types) (ListValue QuotaValue)
  quota_list = via (pair shapes.list_meta (pointer (each quota) quotas_at)) list_part list_of
