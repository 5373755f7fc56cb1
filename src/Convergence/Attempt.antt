-- ===== src/Convergence/Attempt.antt =====
-- `ensureWorkflow` takes a job to the stage that the abstract machine reaches.
use fyp.Common.{
  String, Bool, true, not, ◌||◌, ◌==ˢ◌, if◌then◌else◌, Option, none, some, ◌∷◌, ◌≡◌, refl, ap, ◌∙◌,
  sym, inl, inr, Bool-cases, arith,
}
use fyp.Common.Words.{Int32, le32}
use fyp.Exec.{Result, ok, err, ◌>>=◌}
use fyp.Api.TrainingJob.{TrainingJob, TrainingJobPhase, Time, ◌==ᵖ◌, running, failed}
use fyp.WorkflowBuilder.{Fields, workflow_gvk, build_workflow}
use fyp.WorkflowStatus.{map_workflow_phase}
use fyp.Platform.{Library}
use fyp.Trace.{Trace, Oracle, tracing, got_unstructured}
use fyp.Lifecycle.{stage_of}
use fyp.Protocol.{attempt_key, attempt_name}
use fyp.Controller.Ttl.{done, requeue}
use fyp.Controller.Workflows.{
  workflow_phase, next_attempt, start_time, write_submission, record_submission, created, submit,
  complete, retry, give_up, follow, settle, propagate, ensured, ensure_workflow,
}
use fyp.Convergence.{Outcome, lost, outcome, counted, reach}
use fyp.Convergence.Stored.{Stands, Leaves, refresh-Leaves, finish-Leaves}

abbrev pub limit : TrainingJob → Int32
limit job = job.spec.retry.backoff_limit

same_phase : (p q : TrainingJobPhase) → (p ==ᵖ q) ≡ true → p ≡ q
same_phase p q e = ground arith

-- What the API server answers when it has no Workflow of the attempt, or this one.
pub data Finds {E : Type 0} (lib : Library E) : Result E Fields → Option Outcome → Type 0 where
  nothing : (e : E) → lib.is_not_found e ≡ true → Finds lib (err e) none
  workflow : (wf : Fields) → Finds lib (ok wf) (some (outcome (workflow_phase lib wf)))

next_attempt-counted :
    (job : TrainingJob)
    → (if (next_attempt job).1 then (next_attempt job).0 else job.status.attempts)
      ≡ counted (stage_of job)
unfolding next_attempt
next_attempt-counted job = ground arith

module _ {E : Type 0} (lib : Library E) (o : Oracle E) (base : TrainingJob)
    (writable : (t : Trace E) (j : TrainingJob) → o.update_job_status t j ≡ ok tt) where
  write_submission-Leaves :
      (job : TrainingJob) (attempt : Int32) (creating : Bool) (name : String) (s : Option Time)
      (t : Trace E)
      → Leaves base job
          (record { phase = running; attempts = if creating then attempt else job.status.attempts })
          (write_submission lib (tracing o) job attempt creating name s t)
  unfolding write_submission ◌>>=◌
  write_submission-Leaves job attempt creating name s t =
      rw (writable _ _) (refresh-Leaves o base _ job.metadata.namespace done refl refl refl refl)

  start_time-Leaves :
      (job : TrainingJob) (attempt : Int32) (creating : Bool) (name : String) (s : Option Time)
      (t : Trace E)
      → Leaves base job
          (record { phase = running; attempts = if creating then attempt else job.status.attempts })
          ((start_time lib (tracing o) s
              >>= write_submission lib (tracing o) job attempt creating name)
            t)
  unfolding start_time ◌>>=◌
  start_time-Leaves job attempt creating name none t =
      write_submission-Leaves job attempt creating name _ _
  start_time-Leaves job attempt creating name (some time) t =
      write_submission-Leaves job attempt creating name _ _

  follow-Leaves :
      (job : TrainingJob) (name : String) (t : Trace E)
      → Stands base job (stage_of job) t
      → Leaves base job
          (record (stage_of job) { phase = running })
          (follow lib (tracing o) job running name t)
  unfolding follow ◌>>=◌
  follow-Leaves job name t stands =
      elim (Bool-cases
        (not (job.status.phase ==ᵖ running) || not (job.status.workflow_name ==ˢ name))) [
          | inl changed ↦
              rw (changed, writable _ _)
                (record {
                  result = done;
                  returned = refl;
                  stands = record { metadata = refl; spec = refl; stage = refl };
                })
          | inr same ↦
              let p : job.status.phase ≡ running = ground arith in
              rw same (record {
                result = done;
                returned = refl;
                stands = record {
                  metadata = stands.metadata;
                  spec = stands.spec;
                  stage = stands.stage ∙ ap (λ q. record (stage_of job) { phase = q }) p;
                };
              })
        ]

  module _ (deletable : (t : Trace E) (wf : Fields) → o.delete_unstructured t wf ≡ ok tt) where
    lost-Leaves :
        (job : TrainingJob) (wf : Fields) (name : String) (now : Time) (t : Trace E)
        → Leaves base job
            (reach (limit job) (stage_of job) (some lost))
            (settle lib (tracing o) job failed wf name now t)
    unfolding settle retry give_up ◌>>=◌
    lost-Leaves job wf name now t =
        elim (Bool-cases (le32 job.status.attempts job.spec.retry.backoff_limit)) [
          | inl left ↦
              rw (left, deletable _ _, writable _ _)
                (record {
                  result = requeue;
                  returned = refl;
                  stands = record { metadata = refl; spec = refl; stage = refl };
                })
          | inr spent ↦ rw spent (finish-Leaves o base lib _ _ writable refl refl refl)
        ]

    propagate-Leaves :
        (job : TrainingJob) (wf : Fields) (name : String) (t : Trace E)
        → Stands base job (stage_of job) t
        → Leaves base job
            (reach (limit job) (stage_of job) (some (outcome (workflow_phase lib wf))))
            (propagate lib (tracing o) job wf name t)
    unfolding propagate settle complete map_workflow_phase ◌>>=◌
    propagate-Leaves job wf name t stands =
        let p = workflow_phase lib wf in
        elim (Bool-cases (p ==ˢ "Succeeded")) [
          | inl done ↦ rw done (finish-Leaves o base lib _ _ writable refl refl refl)
          | inr other ↦ elim (Bool-cases (p ==ˢ "Failed" || p ==ˢ "Error")) [
            | inl failing ↦ rw (other, failing) (lost-Leaves job wf name _ _)
            | inr live ↦ rw (other, live) (follow-Leaves job name t stands)
          ]
        ]

    module _ (template_name : String)
        (creatable : (t : Trace E) (wf : Fields) → o.create_unstructured t wf ≡ ok tt) where
      submit-Leaves :
          (job : TrainingJob) (name : String) (owned : Fields) (t : Trace E)
          → lib.set_controller_reference job (build_workflow job (next_attempt job).0 template_name)
            ≡ ok owned
          → Leaves base job (reach (limit job) (stage_of job) none) (
              submit lib
                (tracing o)
                template_name
                job
                (next_attempt job).0
                (next_attempt job).1
                name
                t)
      unfolding submit created record_submission ◌>>=◌
      submit-Leaves job name owned t e =
          rw (e, creatable _ _, sym (next_attempt-counted job))
            (start_time-Leaves job (next_attempt job).0 (next_attempt job).1 name
              job.status.start_time _)

      pub ensure_workflow-Leaves :
          (job : TrainingJob) (owned : Fields) (r : Result E Fields) (seen : Option Outcome)
          (t : Trace E)
          → Stands base job (stage_of job) t
          → lib.set_controller_reference job (build_workflow job (next_attempt job).0 template_name)
            ≡ ok owned
          → ((t : Trace E) → o.get_unstructured t workflow_gvk (attempt_key job) ≡ r)
          → Finds lib r seen
          → Leaves base job
              (reach (limit job) (stage_of job) seen)
              (ensure_workflow lib (tracing o) template_name job t)
      unfolding ensure_workflow ensured ◌>>=◌
      ensure_workflow-Leaves job owned _ _ t stands e read (nothing d gone) =
          rw (read _, gone) (submit-Leaves job _ owned _ e)
      ensure_workflow-Leaves job owned _ _ t stands e read (workflow wf) = rw (read _) (
          propagate-Leaves job wf (attempt_name job)
            (got_unstructured workflow_gvk (attempt_key job) (ok wf) ∷ t)
            (record { metadata = stands.metadata; spec = stands.spec; stage = stands.stage }))
