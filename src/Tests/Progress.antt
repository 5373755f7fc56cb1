-- ===== src/Tests/Progress.antt =====
-- The theorems on what a run gets done, applied to the scenarios.
use fyp.Common.{[], ◌∷◌, false, ◌≡◌, refl, arith}
use fyp.Exec.{Result, ok, err}
use fyp.Api.TrainingJob.{TrainingJob, pending, running, queued}
use fyp.WorkflowBuilder.{Fields}
use fyp.Trace.{
  Oracle, tracing, updated_job_status, deleted_unstructured, deleted_all_of, updated_job,
  created_unstructured, got_job,
}
use fyp.Protocol.{Before}
use fyp.Controller.Ttl.{requeue}
use fyp.Controller.Workflows.{with_status}
use fyp.Controller.Reconcile.{reconcile}
use fyp.Guarantees.Progress.{failed_workflow_is_retried}
use fyp.Guarantees.Release.{deleted_job_goes, failed_cleanup_keeps_finalizer}
use fyp.Guarantees.Park.{job_over_quota_parks}
use fyp.Tests.World.{
  ApiError, not_found, no_match, conflict, library, answers, request, job_in, quota_of, workflow_in,
}
use fyp.Tests.Scenarios.{calls_of, new_job, peers, parking, releasing, doomed_job}

-- The Workflow of attempt 1 has failed.
abbrev losing : Oracle ApiError
losing = answers (job_in running 1) (err not_found) [] (ok (workflow_in "Failed")) 200

failed_workflow_is_retried_example :
    ((reconcile library (tracing losing) "" request []).0 ≡ ok requeue)
    × Before (deleted_unstructured (workflow_in "Failed") (ok tt)) (calls_of losing)
    × Before
        (updated_job_status
          (with_status (job_in running 1) (record (job_in running 1).status { phase = pending }))
          (ok tt))
        (calls_of losing)
unfolding calls_of
failed_workflow_is_retried_example =
    failed_workflow_is_retried library losing "" request (job_in running 1) refl refl refl refl
      (workflow_in "Failed") (λ t. refl) (λ t j. refl) refl refl (λ t. refl)

job_over_quota_parks_example :
    ((reconcile library (tracing parking) "" request []).0
      ≡ ok (record { requeue = false; requeue_after = 15000000000 }))
    × ((wf : Fields) (r : Result ApiError (Unit {0}))
        → ¬ Before (created_unstructured wf r) (calls_of parking))
    × (job' : TrainingJob) × Before (updated_job_status job' (ok tt)) (calls_of parking)
    × (job'.metadata ≡ new_job.metadata)
    × (job'.spec ≡ new_job.spec)
    × (job'.status.phase ≡ queued)
    × (job'.status.attempts ≡ 0)
unfolding calls_of
job_over_quota_parks_example =
    job_over_quota_parks library parking "" request new_job refl refl refl refl (λ t j. refl)
      (quota_of 3) peers (λ t. refl) (λ t. refl) (omega arith) (omega arith) (omega arith)

-- The cleanup fails.
abbrev stuck : Oracle ApiError
stuck = record releasing { delete_all_of = λ t g n l. err conflict }

-- The kind Workflow is not known to the cluster.
abbrev unmatched : Oracle ApiError
unmatched = record releasing { delete_all_of = λ t g n l. err no_match }

deleted_job_goes_example :
    ((reconcile library (tracing unmatched) "" request []).0
      ≡ ok (record { requeue = false; requeue_after = 0 }))
    × ((reconcile library (tracing unmatched) "" request []).1
        ≡ updated_job (library.remove_finalizer doomed_job "mlplatform.fyp.io/finalizer") (ok tt)
          ∷ deleted_all_of
              (record { group = "argoproj.io"; version = "v1alpha1"; kind = "Workflow" })
              "team"
              (("mlplatform.fyp.io/trainingjob", "mnist") ∷ [])
              (err no_match)
          ∷ got_job request (ok doomed_job)
          ∷ [])
deleted_job_goes_example =
    deleted_job_goes library unmatched "" request doomed_job refl refl refl (err no_match) (ok tt)
      refl (λ t. refl) (λ t. refl)

failed_cleanup_keeps_finalizer_example :
    ((reconcile library (tracing stuck) "" request []).0 ≡ err conflict)
    × ((j : TrainingJob) (r : Result ApiError (Unit {0}))
        → ¬ Before (updated_job j r) (calls_of stuck))
unfolding calls_of
failed_cleanup_keeps_finalizer_example =
    failed_cleanup_keeps_finalizer library stuck "" request doomed_job refl refl refl conflict
      (λ t. refl) refl
