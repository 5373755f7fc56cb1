-- ===== src/WorkflowBuilder/Params.antt =====
-- What a Workflow tells the pipeline, and the labels by which the operator finds its Workflows again.
use Prim.Native.String.{◌++◌}
use fyp.Common.{
  String, Option, none, some, List, [], ◌∷◌, Bool, true, false, ◌≡◌, refl, ◌↔◌, ◌==ˢ◌, ◌&&◌,
  if◌then◌else◌, eq_iff, arith, map, Bool-cases, inl, inr,
}
use fyp.Common.Words.{Int32}
use fyp.Api.TrainingJob.{TrainingJob}
use fyp.WorkflowBuilder.{
  HyperparameterParam, Value, text, object, Fields, end, field, lookup, chosen, param_value,
  workflow_params, build_workflow, s3_path, label_training_job,
}

-- m[key] of Go: the empty text where the key is missing.
abbrev pub get_or_empty : String → List (String × String) → String
get_or_empty key [] = ""
get_or_empty key ((k, v) ∷ entries) = if k ==ˢ key then v else get_or_empty key entries

-- The setting of a hyperparameter: its entry, or the default where that is empty or missing.
abbrev pub setting : List (String × String) → String → String → String
setting hyperparameters key default_value =
    if get_or_empty key hyperparameters ==ˢ ""
    then default_value
    else get_or_empty key hyperparameters

chosen-lookup :
    (hs : List (String × String)) (key d : String) → chosen (lookup key hs) d ≡ setting hs key d
unfolding chosen lookup
chosen-lookup [] key d = refl
chosen-lookup ((k, v) ∷ hs) key d = elim (Bool-cases (k ==ˢ key)) [
  | inl found ↦ rw found (ground arith)
  | inr other ↦ rw other (chosen-lookup hs key d)
]

param_value-eq-setting :
    (hs : List (String × String)) (hp : HyperparameterParam)
    → param_value hs hp ≡ setting hs hp.spec_key hp.default_value
unfolding param_value
param_value-eq-setting hs hp = chosen-lookup hs hp.spec_key hp.default_value

-- The prefix under which a job's model is uploaded: <bucket>/<namespace>/<name>.
abbrev pub upload_prefix : TrainingJob → String
upload_prefix job =
    job.spec.output.bucket ++ ("/" ++ (job.metadata.namespace ++ ("/" ++ job.metadata.name)))

-- Each parameter with its value. Model and dataset are those of the spec, also where they are empty.
abbrev pub contract : TrainingJob → List (String × String)
contract job =
    ("job-name", job.metadata.name)
    ∷ ("model", job.spec.model.name)
    ∷ ("dataset", job.spec.dataset.name)
    ∷ ("epochs", setting job.spec.hyperparameters "epochs" "2")
    ∷ ("batch-size", setting job.spec.hyperparameters "batchSize" "128")
    ∷ ("lr", setting job.spec.hyperparameters "learningRate" "0.001")
    ∷ ("s3-path", upload_prefix job)
    ∷ []

-- A parameter as the pipeline reads it.
abbrev pub read_param : Value → String × String
read_param (object (field n (text name) (field v (text value) end))) = (name, value)
read_param _ = ("", "")

pub params-eq-contract : (job : TrainingJob) → map read_param (workflow_params job) ≡ contract job
unfolding workflow_params s3_path
params-eq-contract job = simp param_value-eq-setting

-- The value of a key, and of a path of keys.
abbrev pub member : String → Fields → Option Value
member key end = none
member key (field k v fs) = if k ==ˢ key then some v else member key fs

abbrev pub fields_of : Option Value → Fields
fields_of (some (object fs)) = fs
fields_of _ = end

abbrev is_text : String → Option Value → Bool
is_text s (some (text t)) = t ==ˢ s
is_text s _ = false

-- A label selector holds of an object: each of its labels is there with its value.
abbrev pub selects : List (String × String) → Fields → Bool
selects [] wf = true
selects ((key, value) ∷ labels) wf =
    is_text value (member key (fields_of (member "labels" (fields_of (member "metadata" wf)))))
    && selects labels wf

-- The selector of the finalizer cleanup holds of a Workflow that the operator builds exactly if it was
-- built for a job of the name in the selector.
pub selects-build_workflow :
    (job : TrainingJob) (name : String) (attempt : Int32) (template_name : String)
    → (selects ((label_training_job, name) ∷ []) (build_workflow job attempt template_name) ≡ true)
      ↔ (job.metadata.name ≡ name)
unfolding build_workflow
selects-build_workflow job name attempt template_name =
    ground (arith, eq_iff job.metadata.name name)
