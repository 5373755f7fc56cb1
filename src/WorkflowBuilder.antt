-- ===== src/WorkflowBuilder.antt =====
-- operator/internal/controller/workflow_builder.go: the names and the Argo Workflow of one attempt.
-- An unstructured object is a tree of maps, lists and texts, the entries of a map in the order in
-- which the source writes them.
pub mod Names
pub mod Params
pub mod Manifest
use Prim.Native.String.{◌++◌}
use fyp.Common.{
  ℕ, String, Bool, Option, none, some, List, [], ◌∷◌, ◌++◌ as ◌++ᴸ◌, ◌==ˢ◌, not, ◌&&◌,
  if◌then◌else◌,
}
use fyp.Common.Words.{Int32}
use fyp.Common.Decimal.{show_int32}
use fyp.Api.TrainingJob.{TrainingJob}

-- interface{}, for the values that the operator puts into an object
mutual
  pub data Value : Type 0 where
    text : String → Value
    array : Values → Value
    object : Fields → Value

  pub data Values : Type 0 where
    none_left : Values
    item : Value → Values → Values

  pub data Fields : Type 0 where
    end : Fields
    field : String → Value → Fields → Fields

abbrev pub label_training_job : String
label_training_job = "mlplatform.fyp.io/trainingjob"

abbrev pub label_managed_by : String
label_managed_by = "app.kubernetes.io/managed-by"

abbrev pub manager_name : String
manager_name = "ml-operator"

abbrev pub default_template_name : String
default_template_name = "training-pipeline"

pub record HyperparameterParam : Type 0 where
  pub spec_key : String
  pub param_name : String
  pub default_value : String

abbrev pub hyperparameter_params : List HyperparameterParam
hyperparameter_params =
    record { spec_key = "epochs"; param_name = "epochs"; default_value = "2" }
    ∷ record { spec_key = "batchSize"; param_name = "batch-size"; default_value = "128" }
    ∷ record { spec_key = "learningRate"; param_name = "lr"; default_value = "0.001" }
    ∷ []

pub record GroupVersionKind : Type 0 where
  pub group : String
  pub version : String
  pub kind : String

abbrev pub workflow_gvk : GroupVersionKind
workflow_gvk = record { group = "argoproj.io"; version = "v1alpha1"; kind = "Workflow" }

abbrev pub workflow_list_gvk : GroupVersionKind
workflow_list_gvk = record { group = "argoproj.io"; version = "v1alpha1"; kind = "WorkflowList" }

unfoldable pub workflow_name : TrainingJob → Int32 → String
workflow_name job attempt = job.metadata.name ++ ("-attempt-" ++ show_int32 attempt)

unfoldable pub s3_path : TrainingJob → String
s3_path job =
    job.spec.output.bucket ++ ("/" ++ (job.metadata.namespace ++ ("/" ++ job.metadata.name)))

unfoldable pub model_uri : TrainingJob → String
model_uri job = "s3://" ++ (s3_path job ++ "/")

-- `m[key]` with the comma-ok form, on a map given by its entries.
unfoldable pub lookup : String → List (String × String) → Option String
lookup key [] = none
lookup key ((k, v) ∷ entries) = if k ==ˢ key then some v else lookup key entries

-- The value of one hyperparameter: that of the spec if it is there and not empty.
unfoldable pub chosen : Option String → String → String
chosen none default_value = default_value
chosen (some s) default_value = if not (s ==ˢ "") then s else default_value

unfoldable pub param_value : List (String × String) → HyperparameterParam → String
unfolding lookup chosen
param_value hyperparameters hp = chosen (lookup hp.spec_key hyperparameters) hp.default_value

-- map[string]interface{}{"name": …, "value": …}
abbrev pub param : String → String → Value
param name value = object (field "name" (text name) (field "value" (text value) end))

-- The `for` over `hyperparameterParams`, which appends to `params`.
pub append_hyperparameters :
    List (String × String) → List HyperparameterParam → List Value → List Value
append_hyperparameters hyperparameters [] params = params
append_hyperparameters hyperparameters (hp ∷ rest) params =
    append_hyperparameters hyperparameters rest
      (params ++ᴸ param hp.param_name (param_value hyperparameters hp) ∷ [])

abbrev pub to_values : List Value → Values
to_values [] = none_left
to_values (v ∷ vs) = item v (to_values vs)

unfoldable pub workflow_params : TrainingJob → List Value
unfolding append_hyperparameters
workflow_params job =
    let first : List Value =
      param "job-name" job.metadata.name
      ∷ param "model" job.spec.model.name
      ∷ param "dataset" job.spec.dataset.name
      ∷ [] in
    append_hyperparameters job.spec.hyperparameters hyperparameter_params first
    ++ᴸ param "s3-path" (s3_path job) ∷ []

unfoldable pub build_workflow : TrainingJob → Int32 → String → Fields
build_workflow job attempt template_name =
    let template = if template_name ==ˢ "" then default_template_name else template_name in
    field "apiVersion" (text "argoproj.io/v1alpha1") (
      field "kind" (text "Workflow") (
        field "metadata"
          (object (
            field "name" (text (workflow_name job attempt)) (
              field "namespace" (text job.metadata.namespace) (
                field "labels"
                  (object (
                    field label_training_job (text job.metadata.name)
                      (field label_managed_by (text manager_name) end)))
                  end))))
          (field "spec"
            (object (
              field "workflowTemplateRef" (object (field "name" (text template) end)) (
                field "arguments"
                  (object (field "parameters" (array (to_values (workflow_params job))) end)) end)))
            end)))
