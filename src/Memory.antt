-- ===== src/Memory.antt =====
-- Go's memory, as far as the deep copies of operator/api/v1alpha1 see it: cells at addresses, with
-- the structs as they lie in memory. A pointer, a map and a slice are the address of a cell, or nil;
-- a slice's cell holds its elements. metav1's types are parameters: what the structs hold of them,
-- and `Foreign`, the cells that only their own code reads.
pub mod Shape
pub mod Cells
pub mod Deep
use fyp.Common.{ℕ, ◌+◌, String, Option, List, ◌==◌, if◌then◌else◌}
use fyp.Common.Words.{Int32}
use fyp.Api.TrainingJob.{Time, TrainingJobPhase, ModelSpec, DatasetSpec, RetrySpec, OutputSpec}
use fyp.Api.GpuQuota.{GpuQuotaSpec, GpuQuotaStatus}

abbrev pub Ref : Type 0
Ref = ℕ

-- metav1.TypeMeta, ObjectMeta, ListMeta and Condition, in memory.
pub record Types : Type 1 where
  pub TypeMeta : Type 0
  pub ObjectMeta : Type 0
  pub ListMeta : Type 0
  pub Condition : Type 0
  pub Foreign : Type 0

pub record SpecStruct : Type 0 where
  pub model : ModelSpec
  pub dataset : DatasetSpec
  pub hyperparameters : Option Ref
  pub gpus : Int32
  pub retry : RetrySpec
  pub ttl_seconds_after_finished : Option Ref
  pub output : OutputSpec

pub record StatusStruct : Type 0 where
  pub phase : TrainingJobPhase
  pub attempts : Int32
  pub workflow_name : String
  pub model_uri : String
  pub start_time : Option Ref
  pub completion_time : Option Ref
  pub conditions : Option Ref

pub record JobStruct (types : Types) : Type 0 where
  pub type_meta : types.TypeMeta
  pub metadata : types.ObjectMeta
  pub spec : SpecStruct
  pub status : StatusStruct

pub record QuotaStruct (types : Types) : Type 0 where
  pub type_meta : types.TypeMeta
  pub metadata : types.ObjectMeta
  pub spec : GpuQuotaSpec
  pub status : GpuQuotaStatus

-- TrainingJobList and GPUQuotaList
pub record ListStruct (types : Types) : Type 0 where
  pub type_meta : types.TypeMeta
  pub metadata : types.ListMeta
  pub items : Option Ref

pub data Block (types : Types) : Type 0 where
  unused : Block types
  foreign : types.Foreign → Block types
  int32 : Int32 → Block types
  time : Time → Block types
  text_map : List (String × String) → Block types
  conditions : List types.Condition → Block types
  jobs : List (JobStruct types) → Block types
  quotas : List (QuotaStruct types) → Block types
  model_spec : ModelSpec → Block types
  dataset_spec : DatasetSpec → Block types
  retry_spec : RetrySpec → Block types
  output_spec : OutputSpec → Block types
  job_spec : SpecStruct → Block types
  job_status : StatusStruct → Block types
  job : JobStruct types → Block types
  job_list : ListStruct types → Block types
  quota_spec : GpuQuotaSpec → Block types
  quota_status : GpuQuotaStatus → Block types
  quota : QuotaStruct types → Block types
  quota_list : ListStruct types → Block types

-- The addresses from `next` on are free.
pub record Heap (types : Types) : Type 0 where
  pub next : Ref
  pub cell : Ref → Block types

-- Code that reads and writes the memory.
abbrev pub Mem : Types → Type 0 → Type 0
Mem types A = Heap types → A × Heap types

module _ {types : Types} where
  abbrev pub write : Ref → Block types → Heap types → Heap types
  write p b h = record h { cell = λ q. if q == p then b else h.cell q }

  -- new, make
  abbrev pub alloc : Block types → Mem types Ref
  alloc b h = (h.next, record (write h.next b h) { next = h.next + 1 })

  abbrev pub load : Ref → Mem types (Block types)
  load p h = (h.cell p, h)

  abbrev pub store : Ref → Block types → Mem types (Unit {0})
  store p b h = (tt, write p b h)

module _ {types : Types} {A B : Type 0} where
  infixl 5 ◌>>=◌
  abbrev pub ◌>>=◌ : Mem types A → (A → Mem types B) → Mem types B
  ◌>>=◌ m f h = let (a, h') = m h in f a h'

module _ {types : Types} {A : Type 0} where
  infixl 5 ◌>>◌
  abbrev pub ◌>>◌ : Mem types (Unit {0}) → Mem types A → Mem types A
  m >> n = m >>= λ _. n

  abbrev pub pure : A → Mem types A
  pure a h = (a, h)
