-- ===== src/Controller/Reconcile.antt =====
-- `Reconcile`.
use fyp.Common.{String, Bool, not, ◌||◌, if◌then◌else◌}
use fyp.Exec.{Exec, Result, ok, err, pure, try, ◌>>=◌, ◌>>◌}
use fyp.Api.TrainingJob.{TrainingJob, is_terminal, ◌==ᵖ◌, unset, pending, queued}
use fyp.Platform.{Library, Client, CtrlResult, NamespacedName}
use fyp.Controller.Ttl.{done, return_error, reconcile_ttl, delete_owned_workflows}
use fyp.Controller.QuotaGate.{quota_gate}
use fyp.Controller.Workflows.{ensure_workflow}

abbrev pub finalizer_name : String
finalizer_name = "mlplatform.fyp.io/finalizer"

-- The phases of a job that has not started its current attempt.
abbrev pub is_waiting : TrainingJob → Bool
is_waiting job =
    job.status.phase ==ᵖ unset || (job.status.phase ==ᵖ pending || job.status.phase ==ᵖ queued)

module _ {E W : Type 0} (lib : Library E) (c : Client E W) where
  -- `!job.DeletionTimestamp.IsZero()`: clean up, then release the finalizer.
  unfoldable pub release : TrainingJob → Exec W E CtrlResult
  release job =
      if lib.contains_finalizer job finalizer_name
      then (do
        delete_owned_workflows lib c job
        c.update_job (lib.remove_finalizer job finalizer_name)
        pure done)
      else pure done

  unfoldable pub adopt : TrainingJob → Exec W E CtrlResult
  adopt job = do c.update_job (lib.add_finalizer job finalizer_name); pure done

  -- The quota gate for a job that waits, then its Workflow.
  unfoldable pub advance : String → TrainingJob → Exec W E CtrlResult
  advance template_name job =
      if is_waiting job
      then (do
        admission ← quota_gate lib c job
        if admission.admitted
            then ensure_workflow lib c template_name admission.job
            else pure admission.result)
      else ensure_workflow lib c template_name job

  unfoldable pub reconcile_job : String → TrainingJob → Exec W E CtrlResult
  unfolding release adopt
  reconcile_job template_name job =
      if not (lib.is_zero job.metadata.deletion_timestamp)
      then release job
      else if not (lib.contains_finalizer job finalizer_name)
      then adopt job
      else if is_terminal job
      then reconcile_ttl lib c job
      else advance template_name job

  unfoldable pub received : String → Result E TrainingJob → Exec W E CtrlResult
  received template_name (ok job) = reconcile_job template_name job
  received template_name (err e) = return_error (lib.ignore_not_found e)

  unfoldable pub reconcile : String → NamespacedName → Exec W E CtrlResult
  unfolding received
  reconcile template_name req = do got ← try (c.get_job req); received template_name got
