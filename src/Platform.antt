-- ===== src/Platform.antt =====
-- What the operator takes from Kubernetes and does not implement: the helper functions of
-- apimachinery and controller-runtime, and the API client. Both are parameters of the model. `E` is
-- the type of Go errors and `W` the state of everything outside the operator.
use fyp.Common.{String, Bool, Option, List}
use fyp.Common.Words.{Int64}
use fyp.Api.Conditions.{Condition}
use fyp.Api.TrainingJob.{TrainingJob, Time}
use fyp.Api.GpuQuota.{GpuQuota}
use fyp.WorkflowBuilder.{Fields, GroupVersionKind}
use fyp.Exec.{Exec, Result}

pub record NamespacedName : Type 0 where
  pub namespace : String
  pub name : String

pub data EventType : Type 0 where
  normal warning : EventType

-- ctrl.Result
pub record CtrlResult : Type 0 where
  pub requeue : Bool
  pub requeue_after : Int64

-- The functions that read and write nothing outside their arguments.
pub record Library (E : Type 0) : Type 0 where
  -- apierrors.IsNotFound, apierrors.IsAlreadyExists, meta.IsNoMatchError
  pub is_not_found : E → Bool
  pub is_already_exists : E → Bool
  pub is_no_match_error : E → Bool
  -- client.IgnoreNotFound; `none` is the nil error
  pub ignore_not_found : E → Option E
  -- metav1.Time.IsZero
  pub is_zero : Option Time → Bool
  -- controllerutil
  pub contains_finalizer : TrainingJob → String → Bool
  pub add_finalizer : TrainingJob → String → TrainingJob
  pub remove_finalizer : TrainingJob → String → TrainingJob
  pub set_controller_reference : TrainingJob → Fields → Result E Fields
  -- meta.SetStatusCondition
  pub set_status_condition : List Condition → Condition → List Condition
  -- unstructured.NestedString: the text, whether it is there, and the error
  pub nested_string : Fields → List String → String × Bool × Option E

-- The calls to the API server, the clock and the event recorder.
pub record Client (E W : Type 0) : Type 0 where
  pub get_job : NamespacedName → Exec W E TrainingJob
  pub get_quota : NamespacedName → Exec W E GpuQuota
  pub get_unstructured : GroupVersionKind → NamespacedName → Exec W E Fields
  pub list_jobs : String → Exec W E (List TrainingJob)
  pub update_job : TrainingJob → Exec W E (Unit {0})
  pub delete_job : TrainingJob → Exec W E (Unit {0})
  pub create_unstructured : Fields → Exec W E (Unit {0})
  pub delete_unstructured : Fields → Exec W E (Unit {0})
  pub delete_all_of : GroupVersionKind → String → List (String × String) → Exec W E (Unit {0})
  pub update_job_status : TrainingJob → Exec W E (Unit {0})
  pub update_quota_status : GpuQuota → Exec W E (Unit {0})
  pub now : W → Time × W
  pub eventf : TrainingJob → EventType → String → String → W → W
