-- ===== src/Tests/Safety.antt =====
-- The theorems on the runs of the reconciler, applied to the scenarios.
use fyp.Common.{◌≡◌, ◌≢◌, ◌⊎◌, true, false, refl, arith}
use fyp.Common.Words.{le32}
use fyp.Exec.{Result, ok, err}
use fyp.Api.TrainingJob.{TrainingJob, pending, running, queued}
use fyp.WorkflowBuilder.{Fields, workflow_gvk, workflow_name}
use fyp.Trace.{Obeys, got_unstructured, updated_job_status, deleted_job, deleted_unstructured}
use fyp.Lifecycle.{stage_of, is_waiting_phase, is_live_phase}
use fyp.Lifecycle.Bounds.{WithinBackoff}
use fyp.Protocol.{Before, Permitted, Follows, Measured, attempt_key, attempt_name}
use fyp.Protocol.Runs.{reconcile-Obeys}
use fyp.Guarantees.Lives.{Lived, born, run, run-Follows, Lived-WithinBackoff}
use fyp.Guarantees.Retries.{
  IsSubmitted, HasRead, IsFailure, attempts_need_submission, withdrawal_needs_lost_workflow,
  success_needs_workflow, failed_needs_exhaustion,
}
use fyp.Guarantees.Submissions.{
  Granted, creation_needs_grant, queueing_needs_shortage, IsReport, quota_status_counts_jobs,
  isolation,
}
use fyp.Guarantees.Deletions.{FinalizerWrite, update_is_finalizer, Moves, terminal_rests}
use fyp.Guarantees.Adoption.{adoption_is_forgotten}
use fyp.Tests.World.{ApiError, library, request, job_in, quota_of, workflow_in}
use fyp.Tests.Scenarios.{
  calls_of, new_job, submitting, submitted_job, submits, parking, parked_job, parks, retrying,
  retried_job, retries, giving_up, failed_job, gives_up, completing, completed_job, completes,
  doomed_job, releasing, released_job, releases, ended_job, expiring, expires, adopting,
  adopted_job, adopts, adopting-creates_none, adopting-unfinished, workflow_created, quota_written,
}

reconcile-Obeys_example : Obeys (Permitted library new_job "") (calls_of submitting)
unfolding calls_of
reconcile-Obeys_example = reconcile-Obeys library submitting "" new_job request refl

retried_life : Lived library "" retried_job
unfolding calls_of
retried_life =
    run retried_job retrying request
      (run submitted_job submitting request (born new_job refl refl) refl submits.0) refl retries.0

Lived-WithinBackoff_example : WithinBackoff 1 (stage_of retried_job)
unfolding calls_of retried_job submitted_job
Lived-WithinBackoff_example = Lived-WithinBackoff library "" retried_life (omega arith)

run-Follows_example : Follows new_job submitted_job
unfolding calls_of
run-Follows_example =
    run-Follows library "" submitting request new_job submitted_job (ok tt) refl submits.0

creation_needs_grant_example :
    (is_live_phase new_job.status.phase ≡ true)
    × (e : ApiError) × Before
        (got_unstructured workflow_gvk (attempt_key new_job) (err e))
        (calls_of submitting)
    × (library.is_not_found e ≡ true)
    × (is_waiting_phase new_job.status.phase ≡ true → Granted library new_job (calls_of submitting))
unfolding calls_of
creation_needs_grant_example =
    creation_needs_grant library submitting "" request new_job refl
      (workflow_created (calls_of submitting)) (ok tt) submits.1

queueing_needs_shortage_example : Measured library new_job true (calls_of parking)
unfolding calls_of parked_job
queueing_needs_shortage_example =
    queueing_needs_shortage library parking "" request new_job refl parked_job (ok tt) parks refl

quota_status_counts_jobs_example :
    IsReport library submitting "" request new_job refl
      (quota_written (quota_of 4) (calls_of submitting))
      (calls_of submitting)
unfolding calls_of
quota_status_counts_jobs_example =
    quota_status_counts_jobs library submitting "" request new_job refl
      (quota_written (quota_of 4) (calls_of submitting)) (ok tt) submits.2

isolation_example :
    ((wf : Fields) (r : Result ApiError (Unit {0}))
      → updated_job_status adopted_job (ok tt) ≢ deleted_unstructured wf r)
    × ((job' : TrainingJob) (r : Result ApiError (Unit {0}))
        → updated_job_status adopted_job (ok tt) ≡ updated_job_status job' r
        → (job'.status.phase ≡ running) ⊎ (job'.status.phase ≡ queued))
unfolding calls_of
isolation_example =
    isolation library adopting "" request (job_in pending 1) refl adopting-unfinished
      (updated_job_status adopted_job (ok tt)) adopts

attempts_need_submission_example :
    IsSubmitted library "" new_job submitted_job (calls_of submitting)
unfolding calls_of submitted_job
attempts_need_submission_example =
    attempts_need_submission library submitting "" request new_job refl submitted_job (ok tt)
      submits.0 (omega arith)

withdrawal_needs_lost_workflow_example :
    HasRead library "" submitted_job IsFailure (workflow_in "Failed") (calls_of retrying)
    × (le32 submitted_job.status.attempts submitted_job.spec.retry.backoff_limit ≡ true)
unfolding calls_of
withdrawal_needs_lost_workflow_example =
    withdrawal_needs_lost_workflow library retrying "" request submitted_job refl
      (workflow_in "Failed") (ok tt) retries.1

success_needs_workflow_example :
    (wf : Fields) × HasRead library ""
      (job_in running 1)
      (λ p. p ≡ "Succeeded")
      wf
      (calls_of completing)
    × (completed_job.status.model_uri ≡ "s3://models/team/mnist/")
unfolding calls_of completed_job
success_needs_workflow_example =
    success_needs_workflow library completing "" request (job_in running 1) refl completed_job
      (ok tt) completes refl

failed_needs_exhaustion_example :
    (wf : Fields) × HasRead library "" (job_in running 2) IsFailure wf (calls_of giving_up)
    × (le32 2 1 ≡ false)
unfolding calls_of failed_job
failed_needs_exhaustion_example =
    failed_needs_exhaustion library giving_up "" request (job_in running 2) refl failed_job (ok tt)
      gives_up refl

update_is_finalizer_example :
    FinalizerWrite library releasing "" request doomed_job refl released_job
unfolding calls_of
update_is_finalizer_example =
    update_is_finalizer library releasing "" request doomed_job refl released_job (ok tt) releases

terminal_rests_example : ¬ Moves {E = ApiError} (deleted_job ended_job (ok tt))
unfolding calls_of
terminal_rests_example =
    terminal_rests library expiring "" request ended_job refl refl (deleted_job ended_job (ok tt))
      expires

adoption_is_forgotten_example :
    ((wf : Fields) × Before
        (got_unstructured
          (record { group = "argoproj.io"; version = "v1alpha1"; kind = "Workflow" })
          (record { namespace = "team"; name = workflow_name (job_in pending 1) 2 })
          (ok wf))
        (calls_of adopting))
    × (adopted_job.status.workflow_name ≡ workflow_name (job_in pending 1) 2)
    × (adopted_job.status.attempts ≡ 1)
    × (attempt_name adopted_job ≡ workflow_name (job_in pending 1) 1)
    × (attempt_name adopted_job ≢ adopted_job.status.workflow_name)
unfolding calls_of adopted_job
adoption_is_forgotten_example =
    adoption_is_forgotten library adopting "" request (job_in pending 1) refl adopted_job (ok tt)
      refl (omega arith) (omega arith) adopting-creates_none adopts refl
