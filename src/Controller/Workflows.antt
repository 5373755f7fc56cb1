-- ===== src/Controller/Workflows.antt =====
-- The part of `Reconcile` behind the quota gate: ensure the Workflow of the current attempt, or
-- propagate its status to the job.
use Prim.Native.String.{◌++◌}
use fyp.Common.{
  String, Bool, true, Option, none, some, [], ◌∷◌, ◌==ˢ◌, ◌==◌, not, ◌||◌, if◌then◌else◌,
}
use fyp.Common.Words.{Int32, add32, le32}
use fyp.Common.Decimal.{show_int32}
use fyp.Exec.{Exec, Result, ok, err, pure, raise, try, total, effect, lift, ◌>>=◌, ◌>>◌}
use fyp.Api.Conditions.{
  condition_true, condition_false, condition_workflow_submitted, condition_complete,
  reason_workflow_submitted, reason_training_succeeded, reason_backoff_limit_exceeded,
}
use fyp.Api.TrainingJob.{
  TrainingJob, TrainingJobPhase, TrainingJobStatus, Time, ◌==ᵖ◌, pending, running, succeeded,
  failed,
}
use fyp.WorkflowBuilder.{Fields, workflow_gvk, workflow_name, model_uri, build_workflow}
use fyp.WorkflowStatus.{map_workflow_phase}
use fyp.Platform.{Library, Client, CtrlResult, normal, warning}
use fyp.Controller.Status.{set_condition, update_quota_status}
use fyp.Controller.Ttl.{done, requeue}

abbrev pub with_status : TrainingJob → TrainingJobStatus → TrainingJob
with_status job status = record job { status = status }

-- `WorkflowPhase` of workflow_status.go: the text alone, which is empty where there is none.
unfoldable pub workflow_phase : {E : Type 0} → Library E → Fields → String
workflow_phase lib wf = (lib.nested_string wf ("status" ∷ "phase" ∷ [])).0

-- The attempt to ensure, and whether it is a new one.
unfoldable pub next_attempt : TrainingJob → Int32 × Bool
next_attempt job =
    let creating = not (job.status.phase ==ᵖ running) in
    let attempt = if creating then add32 job.status.attempts 1 else job.status.attempts in
    if attempt == 0 then (1, true) else (attempt, creating)

module _ {E W : Type 0} (lib : Library E) (c : Client E W) where
  unfoldable pub start_time : Option Time → Exec W E (Option Time)
  start_time (some t) = pure (some t)
  start_time none = do t ← total c.now; pure (some t)

  -- The new status of a job whose Workflow was created, and its write.
  unfoldable pub write_submission :
      TrainingJob → Int32 → Bool → String → Option Time → Exec W E CtrlResult
  unfolding set_condition
  write_submission job attempt creating wf_name started = do
    let job' =
        set_condition lib
          (with_status job (record job.status {
            phase = running;
            attempts = if creating then attempt else job.status.attempts;
            workflow_name = wf_name;
            start_time = started;
          }))
          condition_workflow_submitted condition_true reason_workflow_submitted
          ("workflow " ++ (wf_name ++ " created"))
    c.update_job_status job'
    effect (update_quota_status c job.metadata.namespace)
    pure done

  -- After a successful Create.
  unfoldable pub record_submission : TrainingJob → Int32 → Bool → String → Exec W E CtrlResult
  unfolding start_time write_submission
  record_submission job attempt creating wf_name = do
    effect (
        c.eventf job normal "WorkflowSubmitted"
          ("Submitted workflow " ++ (wf_name ++ (" (attempt " ++ (show_int32 attempt ++ ")")))))
    started ← start_time job.status.start_time
    write_submission job attempt creating wf_name started

  -- After the Create.
  unfoldable pub created :
      TrainingJob → Int32 → Bool → String → Result E (Unit {0}) → Exec W E CtrlResult
  created job attempt creating wf_name (ok _) = record_submission job attempt creating wf_name
  created job attempt creating wf_name (err e) =
      if lib.is_already_exists e then pure requeue else raise e

  -- `case apierrors.IsNotFound(err)`
  unfoldable pub submit : String → TrainingJob → Int32 → Bool → String → Exec W E CtrlResult
  unfolding created
  submit template_name job attempt creating wf_name = do
    wf ← lift (lib.set_controller_reference job (build_workflow job attempt template_name))
    answer ← try (c.create_unstructured wf)
    created job attempt creating wf_name answer

  -- The write behind the `switch` on a terminal phase.
  unfoldable pub finish : TrainingJob → Exec W E CtrlResult
  finish job = do
    c.update_job_status job
    effect (update_quota_status c job.metadata.namespace)
    pure requeue

  unfoldable pub complete : TrainingJob → Time → Exec W E CtrlResult
  unfolding finish set_condition
  complete job now = do
    let job' =
        set_condition lib
          (with_status job (record job.status {
            phase = succeeded;
            completion_time = some now;
            model_uri = model_uri job;
          }))
          condition_complete condition_true reason_training_succeeded "training pipeline succeeded"
    effect
        (c.eventf job' normal "TrainingSucceeded" ("Model uploaded to " ++ job'.status.model_uri))
    finish job'

  -- `return err` unless the error is NotFound
  unfoldable pub deleted_or_gone : Result E (Unit {0}) → Exec W E (Unit {0})
  deleted_or_gone (ok _) = pure tt
  deleted_or_gone (err e) = if lib.is_not_found e then pure tt else raise e

  unfoldable pub retry : TrainingJob → Fields → String → Exec W E CtrlResult
  unfolding deleted_or_gone
  retry job wf wf_name = do
    deleted ← try (c.delete_unstructured wf)
    deleted_or_gone deleted
    let job' = with_status job (record job.status { phase = pending })
    effect (
        c.eventf job' warning "Retrying" (
          "Workflow "
          ++ (wf_name
              ++ (" failed; retrying ("
                  ++ (show_int32 job.status.attempts
                      ++ ("/"
                          ++ (show_int32 (add32 job.spec.retry.backoff_limit 1)
                              ++ " retries used)")))))))
    c.update_job_status job'
    pure requeue

  unfoldable pub give_up : TrainingJob → Time → String → Exec W E CtrlResult
  unfolding finish set_condition
  give_up job now wf_name = do
    let job' =
        set_condition lib
          (with_status job (record job.status { phase = failed; completion_time = some now }))
          condition_complete condition_false reason_backoff_limit_exceeded
          ("workflow failed after " ++ (show_int32 job.status.attempts ++ " attempt(s)"))
    effect (
        c.eventf job' warning "TrainingFailed"
          ("Workflow " ++ (wf_name ++ " failed; backoff limit exceeded")))
    finish job'

  -- A Workflow that has not ended: still Running, nothing consumed.
  unfoldable pub follow : TrainingJob → TrainingJobPhase → String → Exec W E CtrlResult
  follow job phase wf_name =
      if not (job.status.phase ==ᵖ phase) || not (job.status.workflow_name ==ˢ wf_name)
      then (do
        c.update_job_status
            (with_status job (record job.status { phase = phase; workflow_name = wf_name }))
        pure done)
      else pure done

  -- `switch phase`; for another phase it has no case.
  unfoldable pub settle :
      TrainingJob → TrainingJobPhase → Fields → String → Time → Exec W E CtrlResult
  unfolding finish
  settle job succeeded wf wf_name now = complete job now
  settle job failed wf wf_name now =
      if le32 job.status.attempts job.spec.retry.backoff_limit
      then retry job wf wf_name
      else give_up job now wf_name
  settle job _ wf wf_name now = finish job

  unfoldable pub propagate : TrainingJob → Fields → String → Exec W E CtrlResult
  unfolding settle
  propagate job wf wf_name =
      let (phase, terminal) = map_workflow_phase (workflow_phase lib wf) in
      if terminal
      then (do now ← total c.now; settle job phase wf wf_name now)
      else follow job phase wf_name

  -- The `switch` on the error of the Get.
  unfoldable pub ensured :
      String → TrainingJob → Int32 → Bool → String → Result E Fields → Exec W E CtrlResult
  ensured template_name job attempt creating wf_name (ok wf) = propagate job wf wf_name
  ensured template_name job attempt creating wf_name (err e) =
      if lib.is_not_found e then submit template_name job attempt creating wf_name else raise e

  unfoldable pub ensure_workflow : String → TrainingJob → Exec W E CtrlResult
  unfolding next_attempt ensured
  ensure_workflow template_name job = do
    let (attempt, creating) = next_attempt job
    let wf_name = workflow_name job attempt
    got ← try (
        c.get_unstructured workflow_gvk
          (record { namespace = job.metadata.namespace; name = wf_name }))
    ensured template_name job attempt creating wf_name got
