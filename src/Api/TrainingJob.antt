-- ===== src/Api/TrainingJob.antt =====
-- operator/api/v1alpha1/trainingjob_types.go. A pointer field is an `Option`, a time is a number of
-- nanoseconds. `ObjectMeta` has the fields of metav1.ObjectMeta that the operator reads.
use fyp.Common.{ℕ, String, Bool, true, false, Option, List, ◌||◌}
use fyp.Common.Words.{Int32}
use fyp.Api.Conditions.{Condition}

abbrev pub Time : Type 0
Time = ℕ

-- `unset` is the empty string of a job whose status was never written. The CRD's enum admits the
-- other five.
pub data TrainingJobPhase : Type 0 where
  unset pending queued running succeeded failed : TrainingJobPhase

-- Go's `==` on phases.
infix 50 ◌==ᵖ◌
abbrev pub ◌==ᵖ◌ : TrainingJobPhase → TrainingJobPhase → Bool
unset ==ᵖ unset = true
pending ==ᵖ pending = true
queued ==ᵖ queued = true
running ==ᵖ running = true
succeeded ==ᵖ succeeded = true
failed ==ᵖ failed = true
_ ==ᵖ _ = false

pub record ModelSpec : Type 0 where
  pub name : String

pub record DatasetSpec : Type 0 where
  pub name : String

pub record RetrySpec : Type 0 where
  pub backoff_limit : Int32

pub record OutputSpec : Type 0 where
  pub bucket : String

pub record TrainingJobSpec : Type 0 where
  pub model : ModelSpec
  pub dataset : DatasetSpec
  pub hyperparameters : List (String × String)
  pub gpus : Int32
  pub retry : RetrySpec
  pub ttl_seconds_after_finished : Option Int32
  pub output : OutputSpec

pub record TrainingJobStatus : Type 0 where
  pub phase : TrainingJobPhase
  pub attempts : Int32
  pub workflow_name : String
  pub model_uri : String
  pub start_time : Option Time
  pub completion_time : Option Time
  pub conditions : List Condition

pub record ObjectMeta : Type 0 where
  pub name : String
  pub namespace : String
  pub generation : ℕ
  pub finalizers : List String
  pub deletion_timestamp : Option Time

pub record TrainingJob : Type 0 where
  pub metadata : ObjectMeta
  pub spec : TrainingJobSpec
  pub status : TrainingJobStatus

abbrev pub is_terminal : TrainingJob → Bool
is_terminal t = t.status.phase ==ᵖ succeeded || t.status.phase ==ᵖ failed
