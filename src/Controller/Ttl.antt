-- ===== src/Controller/Ttl.antt =====
-- `reconcileTTL` and `deleteOwnedWorkflows`.
use fyp.Common.{true, false, Option, none, some, [], ◌∷◌, ◌||◌, if◌then◌else◌}
use fyp.Common.Words.{mul64, to_int64, is_positive64}
use fyp.Exec.{Exec, Result, ok, err, pure, raise, try, total, ◌>>=◌}
use fyp.GoTime
use fyp.GoTime.{second}
use fyp.Api.TrainingJob.{TrainingJob, Time}
use fyp.WorkflowBuilder.{workflow_gvk, label_training_job}
use fyp.Platform.{Library, Client, CtrlResult}

-- ctrl.Result{}
abbrev pub done : CtrlResult
done = record { requeue = false; requeue_after = 0 }

abbrev pub requeue : CtrlResult
requeue = record { requeue = true; requeue_after = 0 }

-- The end of the time to live, for a job that has one and has completed.
unfoldable pub expiry : TrainingJob → Option Time
unfolding GoTime.add
expiry job = elim job.spec.ttl_seconds_after_finished [
  | none ↦ none
  | some ttl ↦ elim job.status.completion_time [
    | none ↦ none
    | some completed ↦ some (GoTime.add completed (mul64 (to_int64 ttl) second))
  ]
]

module _ {E W : Type 0} where
  -- return ctrl.Result{}, err
  abbrev pub return_error : Option E → Exec W E CtrlResult
  return_error none = pure done
  return_error (some e) = raise e

module _ {E W : Type 0} (lib : Library E) (c : Client E W) where
  -- After the Delete: `client.IgnoreNotFound`.
  unfoldable pub expired : Result E (Unit {0}) → Exec W E CtrlResult
  expired (ok _) = pure done
  expired (err e) = return_error (lib.ignore_not_found e)

  unfoldable pub wait_or_delete : TrainingJob → Option Time → Exec W E CtrlResult
  unfolding GoTime.sub expired
  wait_or_delete job none = pure done
  wait_or_delete job (some deadline) = do
    now ← total c.now
    let remaining = GoTime.sub deadline now
    if is_positive64 remaining
        then pure (record { requeue = false; requeue_after = remaining })
        else do deleted ← try (c.delete_job job); expired deleted

  unfoldable pub reconcile_ttl : TrainingJob → Exec W E CtrlResult
  unfolding expiry wait_or_delete
  reconcile_ttl job = wait_or_delete job (expiry job)

  -- An error other than NotFound and NoMatch is returned.
  unfoldable pub cleaned : Result E (Unit {0}) → Exec W E (Unit {0})
  cleaned (ok _) = pure tt
  cleaned (err e) = if lib.is_not_found e || lib.is_no_match_error e then pure tt else raise e

  unfoldable pub delete_owned_workflows : TrainingJob → Exec W E (Unit {0})
  unfolding cleaned
  delete_owned_workflows job = do
    deleted ← try (
        c.delete_all_of workflow_gvk job.metadata.namespace
          ((label_training_job, job.metadata.name) ∷ []))
    cleaned deleted
