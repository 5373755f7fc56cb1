-- ===== src/WorkflowBuilder/Manifest.antt =====
-- The object that `BuildWorkflow` renders, as Argo and the API server read it.
use Prim.Native.String.{◌++◌}
use fyp.Common.{String, Option, some, List, [], ◌∷◌, map, ◌≡◌, refl, ap, ◌∙◌, ◌==ˢ◌, if◌then◌else◌}
use fyp.Common.Words.{Int32}
use fyp.Common.Decimal.{show_int32}
use fyp.Api.TrainingJob.{TrainingJob}
use fyp.WorkflowBuilder.{
  Value, Values, Fields, text, array, none_left, item, end, field, to_values, workflow_params,
  build_workflow, workflow_name,
}
use fyp.WorkflowBuilder.Params.{member, fields_of, read_param, contract, params-eq-contract}

-- What a reader finds in an Argo Workflow.
pub record Manifest : Type 0 where
  pub api_version : String
  pub kind : String
  pub name : String
  pub namespace : String
  pub labels : List (String × String)
  pub template : String
  pub parameters : List (String × String)

abbrev text_of : Option Value → String
text_of (some (text s)) = s
text_of _ = ""

abbrev values_of : Option Value → Values
values_of (some (array vs)) = vs
values_of _ = none_left

abbrev texts_of : Fields → List (String × String)
texts_of end = []
texts_of (field k v fs) = (k, text_of (some v)) ∷ texts_of fs

abbrev read_params : Values → List (String × String)
read_params none_left = []
read_params (item v vs) = read_param v ∷ read_params vs

abbrev pub read_manifest : Fields → Manifest
read_manifest wf =
    let metadata = fields_of (member "metadata" wf) in
    let spec = fields_of (member "spec" wf) in
    record {
      api_version = text_of (member "apiVersion" wf);
      kind = text_of (member "kind" wf);
      name = text_of (member "name" metadata);
      namespace = text_of (member "namespace" metadata);
      labels = texts_of (fields_of (member "labels" metadata));
      template = text_of (member "name" (fields_of (member "workflowTemplateRef" spec)));
      parameters =
          read_params (values_of (member "parameters" (fields_of (member "arguments" spec))));
    }

-- The name of the Workflow of an attempt.
abbrev pub name_of_attempt : TrainingJob → Int32 → String
name_of_attempt job attempt = job.metadata.name ++ ("-attempt-" ++ show_int32 attempt)

abbrev pub manifest : TrainingJob → Int32 → String → Manifest
manifest job attempt template_name = record {
  api_version = "argoproj.io/v1alpha1";
  kind = "Workflow";
  name = name_of_attempt job attempt;
  namespace = job.metadata.namespace;
  labels =
      ("mlplatform.fyp.io/trainingjob", job.metadata.name)
      ∷ ("app.kubernetes.io/managed-by", "ml-operator")
      ∷ [];
  template = if template_name ==ˢ "" then "training-pipeline" else template_name;
  parameters = contract job;
}

read_params-to_values : (vs : List Value) → read_params (to_values vs) ≡ map read_param vs
read_params-to_values [] = refl
read_params-to_values (v ∷ vs) = ap (λ l. read_param v ∷ l) (read_params-to_values vs)

pub read_manifest-build_workflow :
    (job : TrainingJob) (attempt : Int32) (template_name : String)
    → read_manifest (build_workflow job attempt template_name) ≡ manifest job attempt template_name
unfolding build_workflow workflow_name
read_manifest-build_workflow job attempt template_name =
    ap (λ ps. record (manifest job attempt template_name) { parameters = ps })
      (read_params-to_values (workflow_params job) ∙ params-eq-contract job)
