-- ===== src/Tests/World.antt =====
-- A concrete library, concrete jobs, and oracles that answer from a fixed state of the cluster.
use fyp.Common.{
  String, Bool, true, false, Option, none, some, List, [], ◌∷◌, ◌==ˢ◌, ◌||◌, if◌then◌else◌, ◌++◌,
}
use fyp.Common.Words.{Int32}
use fyp.Exec.{Result, ok}
use fyp.Api.Conditions.{Condition}
use fyp.Api.TrainingJob.{TrainingJob, TrainingJobPhase, Time}
use fyp.Api.GpuQuota.{GpuQuota}
use fyp.WorkflowBuilder.{Value, Fields, text, object, end, field}
use fyp.WorkflowBuilder.Params.{member}
use fyp.Platform.{Library, NamespacedName}
use fyp.Trace.{Oracle}
use fyp.Controller.Reconcile.{finalizer_name}

pub data ApiError : Type 0 where
  not_found already_exists no_match conflict : ApiError

abbrev is_not_found : ApiError → Bool
is_not_found not_found = true
is_not_found _ = false

abbrev is_already_exists : ApiError → Bool
is_already_exists already_exists = true
is_already_exists _ = false

abbrev is_no_match_error : ApiError → Bool
is_no_match_error no_match = true
is_no_match_error _ = false

abbrev is_zero : Option Time → Bool
is_zero none = true
is_zero (some _) = false

abbrev contains : String → List String → Bool
contains x [] = false
contains x (y ∷ ys) = y ==ˢ x || contains x ys

abbrev without : String → List String → List String
without x [] = []
without x (y ∷ ys) = let rest = without x ys in if y ==ˢ x then rest else y ∷ rest

abbrev with_finalizers : TrainingJob → List String → TrainingJob
with_finalizers job fs = record job { metadata = record job.metadata { finalizers = fs } }

-- The condition of the type is replaced, or the new one appended.
abbrev set_status_condition : List Condition → Condition → List Condition
set_status_condition [] c = c ∷ []
set_status_condition (d ∷ ds) c =
    let rest = set_status_condition ds c in if d.type ==ˢ c.type then c ∷ ds else d ∷ rest

abbrev nested : Option Value → List String → String × Bool × Option ApiError
nested (some (text s)) [] = (s, true, none)
nested (some (object fs)) (key ∷ keys) = nested (member key fs) keys
nested _ _ = ("", false, none)

abbrev pub library : Library ApiError
library = record {
  is_not_found = is_not_found;
  is_already_exists = is_already_exists;
  is_no_match_error = is_no_match_error;
  ignore_not_found = λ e. if is_not_found e then none else some e;
  is_zero = is_zero;
  contains_finalizer = λ job f. contains f job.metadata.finalizers;
  add_finalizer = λ job f. with_finalizers job (job.metadata.finalizers ++ f ∷ []);
  remove_finalizer = λ job f. with_finalizers job (without f job.metadata.finalizers);
  set_controller_reference = λ job wf. ok wf;
  set_status_condition = set_status_condition;
  nested_string = λ wf keys. nested (some (object wf)) keys;
}

-- What the API server and the clock answer; every write succeeds.
abbrev pub answers :
    TrainingJob
    → Result ApiError GpuQuota
    → List TrainingJob
    → Result ApiError Fields
    → Time
    → Oracle ApiError
answers job quota peers wf now = record {
  get_job = λ t n. ok job;
  get_quota = λ t n. quota;
  get_unstructured = λ t g n. wf;
  list_jobs = λ t n. ok peers;
  update_job = λ t j. ok tt;
  delete_job = λ t j. ok tt;
  create_unstructured = λ t wf. ok tt;
  delete_unstructured = λ t wf. ok tt;
  delete_all_of = λ t g n l. ok tt;
  update_job_status = λ t j. ok tt;
  update_quota_status = λ t q. ok tt;
  now = λ t. now;
}

abbrev pub request : NamespacedName
request = record { namespace = "team"; name = "mnist" }

abbrev pub named_job : String → TrainingJobPhase → Int32 → Option Time → TrainingJob
named_job name phase attempts completed = record {
  metadata = record {
    name = name;
    namespace = "team";
    generation = 1;
    finalizers = finalizer_name ∷ [];
    deletion_timestamp = none;
  };
  spec = record {
    model = record { name = "mnist-cnn" };
    dataset = record { name = "mnist" };
    hyperparameters = ("epochs", "5") ∷ [];
    gpus = 2;
    retry = record { backoff_limit = 1 };
    ttl_seconds_after_finished = some 60;
    output = record { bucket = "models" };
  };
  status = record {
    phase = phase;
    attempts = attempts;
    workflow_name = "";
    model_uri = "";
    start_time = none;
    completion_time = completed;
    conditions = [];
  };
}

abbrev pub job_in : TrainingJobPhase → Int32 → TrainingJob
job_in phase attempts = named_job "mnist" phase attempts none

abbrev pub quota_of : Int32 → GpuQuota
quota_of hard = record {
  metadata = record {
    name = "default";
    namespace = "team";
    generation = 1;
    finalizers = [];
    deletion_timestamp = none;
  };
  spec = record { hard_gpus = hard };
  status = record { used_gpus = 0; queued_jobs = 0 };
}

-- A Workflow of which the cluster shows the Argo phase.
abbrev pub workflow_in : String → Fields
workflow_in phase = field "status" (object (field "phase" (text phase) end)) end
