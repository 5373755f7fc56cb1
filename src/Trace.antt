-- ===== src/Trace.antt =====
-- The calls that the reconciler makes, in every environment. An oracle answers each call by any
-- function of the calls before it, so it stands for every behaviour of the API server, its failures,
-- its stale reads and what other clients do between two calls. A trace has the latest call first.
use fyp.Common.{String, List, [], ◌∷◌}
use fyp.Exec.{Result}
use fyp.Api.TrainingJob.{TrainingJob, Time}
use fyp.Api.GpuQuota.{GpuQuota}
use fyp.WorkflowBuilder.{Fields, GroupVersionKind}
use fyp.Platform.{Client, NamespacedName, EventType}

-- A call with its answer.
pub data Call (E : Type 0) : Type 0 where
  got_job : NamespacedName → Result E TrainingJob → Call E
  got_quota : NamespacedName → Result E GpuQuota → Call E
  got_unstructured : GroupVersionKind → NamespacedName → Result E Fields → Call E
  listed_jobs : String → Result E (List TrainingJob) → Call E
  updated_job : TrainingJob → Result E (Unit {0}) → Call E
  deleted_job : TrainingJob → Result E (Unit {0}) → Call E
  created_unstructured : Fields → Result E (Unit {0}) → Call E
  deleted_unstructured : Fields → Result E (Unit {0}) → Call E
  deleted_all_of : GroupVersionKind → String → List (String × String) → Result E (Unit {0}) → Call E
  updated_job_status : TrainingJob → Result E (Unit {0}) → Call E
  updated_quota_status : GpuQuota → Result E (Unit {0}) → Call E
  read_clock : Time → Call E
  recorded : TrainingJob → EventType → String → String → Call E

abbrev pub Trace : Type 0 → Type 0
Trace E = List (Call E)

pub record Oracle (E : Type 0) : Type 0 where
  pub get_job : Trace E → NamespacedName → Result E TrainingJob
  pub get_quota : Trace E → NamespacedName → Result E GpuQuota
  pub get_unstructured : Trace E → GroupVersionKind → NamespacedName → Result E Fields
  pub list_jobs : Trace E → String → Result E (List TrainingJob)
  pub update_job : Trace E → TrainingJob → Result E (Unit {0})
  pub delete_job : Trace E → TrainingJob → Result E (Unit {0})
  pub create_unstructured : Trace E → Fields → Result E (Unit {0})
  pub delete_unstructured : Trace E → Fields → Result E (Unit {0})
  pub delete_all_of :
      Trace E → GroupVersionKind → String → List (String × String) → Result E (Unit {0})
  pub update_job_status : Trace E → TrainingJob → Result E (Unit {0})
  pub update_quota_status : Trace E → GpuQuota → Result E (Unit {0})
  pub now : Trace E → Time

-- What may be said of a call, given the calls before it.
abbrev pub Rule : Type 0 → Type 1
Rule E = Call E → Trace E → Type 0

-- Every call of the trace obeys the rule.
pub data Obeys {C : Type 0} (J : C → List C → Type 0) : List C → Type 0 where
  silent : Obeys J []
  call : {c : C} {t : List C} → J c t → Obeys J t → Obeys J (c ∷ t)

-- The call is one of the trace.
pub data Before {C : Type 0} (c : C) : List C → Type 0 where
  here : {t : List C} → Before c (c ∷ t)
  there : {d : C} {t : List C} → Before c t → Before c (d ∷ t)

-- The client that answers by the oracle and keeps the trace.
abbrev pub tracing : {E : Type 0} → Oracle E → Client E (Trace E)
tracing o = record {
  get_job = λ n t. let r = o.get_job t n in (r, got_job n r ∷ t);
  get_quota = λ n t. let r = o.get_quota t n in (r, got_quota n r ∷ t);
  get_unstructured = λ g n t. let r = o.get_unstructured t g n in (r, got_unstructured g n r ∷ t);
  list_jobs = λ n t. let r = o.list_jobs t n in (r, listed_jobs n r ∷ t);
  update_job = λ j t. let r = o.update_job t j in (r, updated_job j r ∷ t);
  delete_job = λ j t. let r = o.delete_job t j in (r, deleted_job j r ∷ t);
  create_unstructured =
      λ wf t. let r = o.create_unstructured t wf in (r, created_unstructured wf r ∷ t);
  delete_unstructured =
      λ wf t. let r = o.delete_unstructured t wf in (r, deleted_unstructured wf r ∷ t);
  delete_all_of = λ g n l t. let r = o.delete_all_of t g n l in (r, deleted_all_of g n l r ∷ t);
  update_job_status = λ j t. let r = o.update_job_status t j in (r, updated_job_status j r ∷ t);
  update_quota_status =
      λ q t. let r = o.update_quota_status t q in (r, updated_quota_status q r ∷ t);
  now = λ t. let n = o.now t in (n, read_clock n ∷ t);
  eventf = λ j type reason message t. recorded j type reason message ∷ t;
}
