-- ===== src/Tests/Scenarios.antt =====
-- Runs of `Reconcile` in concrete environments, with the calls that they make.
use fyp.Common.{false, none, some, List, [], ◌∷◌, ◌≡◌, refl}
use fyp.Exec.{ok, err, ◌>>=◌}
use fyp.Api.TrainingJob.{TrainingJob, unset, pending, running, succeeded}
use fyp.Trace.{
  Trace, Oracle, tracing, updated_job_status, updated_job, updated_quota_status, deleted_job,
  created_unstructured, deleted_unstructured, got_unstructured,
}
use fyp.Protocol.{Before, here, there}
use fyp.Quota.{used_gpus, count_queued}
use fyp.WorkflowStatus.{map_workflow_phase}
use fyp.WorkflowBuilder.{
  Fields, GroupVersionKind, end, workflow_name, build_workflow, s3_path, model_uri, workflow_params,
  param_value,
}
use fyp.Platform.{NamespacedName}
use fyp.Api.GpuQuota.{GpuQuota}
use fyp.Common.Decimal.{show_int32}
use fyp.Controller.Status.{update_quota_status}
use fyp.Controller.Ttl.{reconcile_ttl, delete_owned_workflows}
use fyp.Controller.QuotaGate.{park, admit, weigh, quota_gate}
use fyp.Controller.Workflows.{
  workflow_phase, submit, record_submission, complete, retry, give_up, follow, propagate,
  ensure_workflow,
}
use fyp.Controller.Reconcile.{advance, reconcile_job, reconcile}
use fyp.Tests.World.{
  ApiError, not_found, library, answers, request, job_in, named_job, quota_of, workflow_in,
}

unfoldable pub calls_of : Oracle ApiError → Trace ApiError
unfolding reconcile reconcile_job advance quota_gate weigh park admit ensure_workflow submit
    record_submission propagate complete retry give_up follow update_quota_status reconcile_ttl
    delete_owned_workflows workflow_phase map_workflow_phase used_gpus count_queued workflow_name
    build_workflow model_uri s3_path workflow_params param_value show_int32 ◌>>=◌
calls_of o = (reconcile library (tracing o) "" request []).1

-- The last objects that a trace writes, creates or deletes; where there is none, the argument.
abbrev pub status_written : TrainingJob → Trace ApiError → TrainingJob
status_written job [] = job
status_written job (updated_job_status j r ∷ t) = j
status_written job (_ ∷ t) = status_written job t

abbrev pub job_written : TrainingJob → Trace ApiError → TrainingJob
job_written job [] = job
job_written job (updated_job j r ∷ t) = j
job_written job (_ ∷ t) = job_written job t

abbrev pub quota_written : GpuQuota → Trace ApiError → GpuQuota
quota_written quota [] = quota
quota_written quota (updated_quota_status q r ∷ t) = q
quota_written quota (_ ∷ t) = quota_written quota t

abbrev pub workflow_created : Trace ApiError → Fields
workflow_created [] = end
workflow_created (created_unstructured wf r ∷ t) = wf
workflow_created (_ ∷ t) = workflow_created t

-- A new job beside a Running job that holds 2 GPUs, with a quota of 4.
abbrev pub new_job : TrainingJob
new_job = job_in unset 0

abbrev pub peers : List TrainingJob
peers = named_job "other" running 1 none ∷ new_job ∷ []

abbrev pub submitting : Oracle ApiError
submitting = answers new_job (ok (quota_of 4)) peers (err not_found) 100

unfoldable pub submitted_job : TrainingJob
unfolding calls_of
submitted_job = status_written new_job (calls_of submitting)

pub submits :
    Before (updated_job_status submitted_job (ok tt)) (calls_of submitting)
    × Before
        (created_unstructured (workflow_created (calls_of submitting)) (ok tt))
        (calls_of submitting)
    × Before
        (updated_quota_status (quota_written (quota_of 4) (calls_of submitting)) (ok tt))
        (calls_of submitting)
unfolding calls_of submitted_job
submits = (there (there (there here)), there (there (there (there (there (there here))))), here)

-- The same with a quota of 3.
abbrev pub parking : Oracle ApiError
parking = answers new_job (ok (quota_of 3)) peers (err not_found) 100

unfoldable pub parked_job : TrainingJob
unfolding calls_of
parked_job = status_written new_job (calls_of parking)

pub parks : Before (updated_job_status parked_job (ok tt)) (calls_of parking)
unfolding calls_of parked_job
parks = there (there (there here))

-- The Workflow of attempt 1 has failed; one retry is left.
abbrev pub retrying : Oracle ApiError
retrying = answers submitted_job (err not_found) [] (ok (workflow_in "Failed")) 200

unfoldable pub retried_job : TrainingJob
unfolding calls_of
retried_job = status_written new_job (calls_of retrying)

pub retries :
    Before (updated_job_status retried_job (ok tt)) (calls_of retrying)
    × Before (deleted_unstructured (workflow_in "Failed") (ok tt)) (calls_of retrying)
unfolding calls_of retried_job submitted_job
retries = (here, there (there here))

-- The Workflow of attempt 2 has ended with an error.
abbrev pub giving_up : Oracle ApiError
giving_up = answers (job_in running 2) (err not_found) [] (ok (workflow_in "Error")) 300

unfoldable pub failed_job : TrainingJob
unfolding calls_of
failed_job = status_written new_job (calls_of giving_up)

pub gives_up : Before (updated_job_status failed_job (ok tt)) (calls_of giving_up)
unfolding calls_of failed_job
gives_up = there here

abbrev pub completing : Oracle ApiError
completing = answers (job_in running 1) (err not_found) [] (ok (workflow_in "Succeeded")) 300

unfoldable pub completed_job : TrainingJob
unfolding calls_of
completed_job = status_written new_job (calls_of completing)

pub completes : Before (updated_job_status completed_job (ok tt)) (calls_of completing)
unfolding calls_of completed_job
completes = there here

-- A job that is being deleted.
abbrev pub doomed_job : TrainingJob
doomed_job = record (job_in running 1) {
  metadata = record (job_in running 1).metadata { deletion_timestamp = some 5 };
}

abbrev pub releasing : Oracle ApiError
releasing = answers doomed_job (err not_found) [] (err not_found) 300

unfoldable pub released_job : TrainingJob
unfolding calls_of
released_job = job_written new_job (calls_of releasing)

pub releases : Before (updated_job released_job (ok tt)) (calls_of releasing)
unfolding calls_of released_job
releases = here

-- A job whose minute after the completion is over.
abbrev pub ended_job : TrainingJob
ended_job = named_job "mnist" succeeded 1 (some 5)

abbrev pub expiring : Oracle ApiError
expiring = answers ended_job (err not_found) [] (err not_found) 60000000005

pub expires : Before (deleted_job ended_job (ok tt)) (calls_of expiring)
unfolding calls_of
expires = here

-- The Workflow of attempt 2 runs, and the status counts one attempt.
abbrev pub adopting : Oracle ApiError
adopting = answers (job_in pending 1) (err not_found) [] (ok (workflow_in "Running")) 300

unfoldable pub adopted_job : TrainingJob
unfolding calls_of
adopted_job = status_written new_job (calls_of adopting)

pub adopts : Before (updated_job_status adopted_job (ok tt)) (calls_of adopting)
unfolding calls_of adopted_job
adopts = here

pub adopting-creates_none :
    (wf : Fields) → ¬ Before (created_unstructured wf (ok tt)) (calls_of adopting)
unfolding calls_of
adopting-creates_none wf (there (there (there (there b)))) = elim b [ ]

pub adopting-unfinished :
    (g : GroupVersionKind) (k : NamespacedName) (wf : Fields)
    → Before (got_unstructured g k (ok wf)) (calls_of adopting)
    → map_workflow_phase (workflow_phase library wf) ≡ (running, false)
unfolding calls_of
adopting-unfinished g k wf (there here) = refl
adopting-unfinished g k wf (there (there (there (there b)))) = elim b [ ]
