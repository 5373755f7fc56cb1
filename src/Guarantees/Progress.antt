-- ===== src/Guarantees/Progress.antt =====
-- What a run gets done where the API server answers without errors.
use fyp.Common.{String, [], ◌∷◌, true, false, ◌≡◌, refl}
use fyp.Common.Words.{le32}
use fyp.Exec.{Result, ok, ◌>>=◌}
use fyp.Api.TrainingJob.{TrainingJob, running, failed, pending}
use fyp.WorkflowBuilder.{Fields, workflow_gvk}
use fyp.WorkflowStatus.{map_workflow_phase}
use fyp.Platform.{Library, NamespacedName, CtrlResult}
use fyp.Trace.{
  Trace, Oracle, tracing, got_job, got_unstructured, updated_job_status, deleted_unstructured,
}
use fyp.Protocol.{Before, here, there, attempt_key, attempt_name}
use fyp.Guarantees.Refresh.{refreshed}
use fyp.Controller.Ttl.{requeue}
use fyp.Controller.Workflows.{
  workflow_phase, with_status, ensure_workflow, propagate, retry, give_up,
}
use fyp.Controller.Reconcile.{finalizer_name, advance, reconcile_job, reconcile}

module _ {E : Type 0} (lib : Library E) (o : Oracle E) (template_name : String)
    (req : NamespacedName) (job : TrainingJob) (read : o.get_job [] req ≡ ok job)
    (alive : lib.is_zero job.metadata.deletion_timestamp ≡ true)
    (held : lib.contains_finalizer job finalizer_name ≡ true) where
  abbrev run : Result E CtrlResult × Trace E
  run = reconcile lib (tracing o) template_name req []

  abbrev start : Trace E
  start = got_job req (ok job) ∷ []

  run-running :
      job.status.phase ≡ running → run ≡ ensure_workflow lib (tracing o) template_name job start
  unfolding reconcile reconcile_job advance ◌>>=◌
  run-running p = rw (read, alive, held, p) refl

  module _ (p : job.status.phase ≡ running) (wf : Fields)
      (found : (t : Trace E) → o.get_unstructured t workflow_gvk (attempt_key job) ≡ ok wf) where
    run-found :
        run
        ≡ propagate lib
            (tracing o)
            job
            wf
            (attempt_name job)
            (got_unstructured workflow_gvk (attempt_key job) (ok wf) ∷ start)
    unfolding ensure_workflow ◌>>=◌
    run-found = rw (run-running p, found start) refl

    module _ (writable : (t : Trace E) (j : TrainingJob) → o.update_job_status t j ≡ ok tt) where
      -- A Running job that has the finalizer and is not being deleted, whose Workflow is read in a
      -- phase that is mapped to Failed, with a retry left: if the API server takes the Delete and
      -- the status, the run deletes the Workflow, writes the job as Pending, and asks to run again.
      pub failed_workflow_is_retried :
          map_workflow_phase (workflow_phase lib wf) ≡ (failed, true)
          → le32 job.status.attempts job.spec.retry.backoff_limit ≡ true
          → ((t : Trace E) → o.delete_unstructured t wf ≡ ok tt)
          → (run.0 ≡ ok requeue)
            × Before (deleted_unstructured wf (ok tt)) run.1
            × Before
                (updated_job_status
                  (with_status job (record job.status { phase = pending }))
                  (ok tt))
                run.1
      unfolding propagate retry ◌>>=◌
      failed_workflow_is_retried e left gone =
          rw (run-found, e, left, gone _, writable _ _) (refl, there (there here), here)

      -- A Running job that has the finalizer and is not being deleted, whose Workflow is read in a
      -- phase that is mapped to Failed, with the attempts past the backoff limit: if the API server
      -- takes the status, the run writes the job as Failed with the attempts it had, and asks to
      -- run again.
      pub spent_job_fails :
          map_workflow_phase (workflow_phase lib wf) ≡ (failed, true)
          → le32 job.status.attempts job.spec.retry.backoff_limit ≡ false
          → (run.0 ≡ ok requeue)
            × (job' : TrainingJob) × Before (updated_job_status job' (ok tt)) run.1
            × (job'.status.phase ≡ failed)
            × (job'.status.attempts ≡ job.status.attempts)
      unfolding propagate give_up ◌>>=◌
      spent_job_fails e spent =
          rw (run-found, e, spent, writable _ _)
            (let (r, b) = refreshed o job.metadata.namespace requeue here in (r, _, b, refl, refl))
