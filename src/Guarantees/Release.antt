-- ===== src/Guarantees/Release.antt =====
-- The end of a job that is being deleted: cleanup first, and no release without it.
use fyp.Common.{String, [], ◌∷◌, true, false, ◌≡◌, refl, ◌||◌}
use fyp.Exec.{Result, ok, err, ◌>>=◌}
use fyp.Api.TrainingJob.{TrainingJob}
use fyp.WorkflowBuilder.{workflow_gvk}
use fyp.Platform.{Library, NamespacedName, CtrlResult}
use fyp.Trace.{Trace, Oracle, tracing, got_job, deleted_all_of, updated_job}
use fyp.Protocol.{Before, there, owned, IsClean}
use fyp.Controller.Ttl.{cleaned, delete_owned_workflows}
use fyp.Controller.Reconcile.{finalizer_name, reconcile_job, reconcile}

module _ {E : Type 0} (lib : Library E) (o : Oracle E) (template_name : String)
    (req : NamespacedName) (job : TrainingJob) (read : o.get_job [] req ≡ ok job)
    (deleted : lib.is_zero job.metadata.deletion_timestamp ≡ false)
    (held : lib.contains_finalizer job finalizer_name ≡ true) where
  abbrev run : Result E CtrlResult × Trace E
  run = reconcile lib (tracing o) template_name req []

  -- What a run returns behind the last update: a result without a requeue, or the update's error.
  abbrev pub returned : Result E (Unit {0}) → Result E CtrlResult
  returned (ok _) = ok (record { requeue = false; requeue_after = 0 })
  returned (err e) = err e

  -- A job that is being deleted and has the finalizer: where the DeleteAllOf succeeds or fails with
  -- NotFound or NoMatch, the run makes three calls and no other, in this order: it reads the job,
  -- deletes the Workflows of the job's namespace that carry the job's name as the label
  -- mlplatform.fyp.io/trainingjob, and updates the job without its finalizer. It returns the
  -- update's error, or no error and no requeue.
  pub deleted_job_goes :
      (r u : Result E (Unit {0}))
      → IsClean lib job r
      → ((t : Trace E)
          → o.delete_all_of t
              (record { group = "argoproj.io"; version = "v1alpha1"; kind = "Workflow" })
              job.metadata.namespace
              (("mlplatform.fyp.io/trainingjob", job.metadata.name) ∷ [])
            ≡ r)
      → ((t : Trace E)
          → o.update_job t (lib.remove_finalizer job "mlplatform.fyp.io/finalizer") ≡ u)
      → (run.0 ≡ returned u)
        × (run.1
            ≡ updated_job (lib.remove_finalizer job "mlplatform.fyp.io/finalizer") u
              ∷ deleted_all_of
                  (record { group = "argoproj.io"; version = "v1alpha1"; kind = "Workflow" })
                  job.metadata.namespace
                  (("mlplatform.fyp.io/trainingjob", job.metadata.name) ∷ [])
                  r
              ∷ got_job req (ok job)
              ∷ [])
  unfolding reconcile reconcile_job delete_owned_workflows cleaned ◌>>=◌
  deleted_job_goes (ok _) (ok _) clean cleanup update =
      rw (read, deleted, held, cleanup _, update _) (refl, refl)
  deleted_job_goes (ok _) (err e) clean cleanup update =
      rw (read, deleted, held, cleanup _, update _) (refl, refl)
  deleted_job_goes (err d) (ok _) clean cleanup update =
      rw (read, deleted, held, cleanup _, clean, update _) (refl, refl)
  deleted_job_goes (err d) (err e) clean cleanup update =
      rw (read, deleted, held, cleanup _, clean, update _) (refl, refl)

  no_update :
      {e : E} (j : TrainingJob) (r : Result E (Unit {0}))
      → ¬ Before (updated_job j r) (
          deleted_all_of workflow_gvk job.metadata.namespace (owned lib job) (err e)
          ∷ got_job req (ok job)
          ∷ [])
  no_update j r (there (there b)) = elim b [ ]

  -- A job that is being deleted and has the finalizer: if the DeleteAllOf fails with an error that is
  -- neither NotFound nor NoMatch, the run returns that error and does not update the job.
  pub failed_cleanup_keeps_finalizer :
      (e : E)
      → ((t : Trace E)
          → o.delete_all_of t workflow_gvk job.metadata.namespace (owned lib job) ≡ err e)
      → (lib.is_not_found e || lib.is_no_match_error e) ≡ false
      → (run.0 ≡ err e)
        × ((j : TrainingJob) (r : Result E (Unit {0})) → ¬ Before (updated_job j r) run.1)
  unfolding reconcile reconcile_job delete_owned_workflows ◌>>=◌
  failed_cleanup_keeps_finalizer e uncleanable hard =
      rw (read, deleted, held, uncleanable _, hard) (refl, no_update)
