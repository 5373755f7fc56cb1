-- ===== src/Protocol/Phases.antt =====
-- The phases of a Workflow that is there: what follows the quota gate keeps to the protocol. The job
-- at hand differs from the job that was read in its conditions at most.
use fyp.Common.{String, true, false, ◌≡◌, refl, sym, ap, ◌∙◌, inl, inr, Bool-cases}
use fyp.Common.Words.{le32}
use fyp.Exec.{Exec, Result, ok, err, ◌>>=◌, ◌>>◌, pure}
use fyp.Api.TrainingJob.{TrainingJob, Time, running, succeeded, failed}
use fyp.WorkflowBuilder.{Fields, workflow_gvk, s3_path, model_uri}
use fyp.WorkflowStatus.{map_workflow_phase-cases}
use fyp.Platform.{Library, NamespacedName}
use fyp.Trace.{Trace, Obeys, call, Oracle, tracing, got_unstructured, read_clock}
use fyp.Lifecycle.{is_live_phase, keep, succeed, retry, give_up}
use fyp.Protocol.{
  Before, here, there, Same, Follows, Permitted, Admitted, Observed, observed, Grounds, IsGone,
  attempt_name, attempt_key, followed, completed, retried, gave_up, records, writes, withdraws,
  reads_workflow, reads_clock,
}
use fyp.Protocol.Logic.{
  Keeps, Keeps-pure, Keeps-raise, Keeps-if, Keeps-bind, Keeps-try, Keeps-total, Keeps-effect,
  Admitted-there, Observed-there, Before-latest,
}
use fyp.Protocol.Gate.{write-Keeps}
use fyp.Controller.Ttl.{done}
use fyp.Controller.Workflows.{
  workflow_phase, next_attempt, with_status, complete, retry as retry_job, deleted_or_gone,
  give_up as give_up_job, follow, settle, propagate, ensured, ensure_workflow,
}
use fyp.Protocol.Submit.{attempt_name-Same, namespace-Same, status-Follows, submit-Keeps}

module _ {E : Type 0} (lib : Library E) (o : Oracle E) (template_name : String) (job : TrainingJob)
    {job₁ : TrainingJob} (same : Same job job₁) (live : is_live_phase job.status.phase ≡ true) where
  model_uri-Same : model_uri job₁ ≡ model_uri job
  unfolding model_uri s3_path
  model_uri-Same = rw (same.metadata, same.spec)

  complete-Keeps :
      (wf : Fields) (now : Time) (t : Trace E)
      → Observed lib job succeeded true wf t
      → Before (read_clock now) t
      → Obeys (Permitted lib job template_name) t
      → Keeps (Permitted lib job template_name) t (complete lib (tracing o) job₁ now)
  unfolding complete
  complete-Keeps wf now t seen clock h = Keeps-effect _ _ (
      write-Keeps lib o template_name job _ _ _ (namespace-Same lib o template_name job same live)
        (status-Follows lib o template_name job same live _ (succeed live (rw same.attempts)))
        (completed wf now (Observed-there seen) (there clock) refl refl model_uri-Same)
        (call records h))

  give_up-Keeps :
      (wf : Fields) (now : Time) (name : String) (t : Trace E)
      → Observed lib job failed true wf t
      → Before (read_clock now) t
      → le32 job.status.attempts job.spec.retry.backoff_limit ≡ false
      → Obeys (Permitted lib job template_name) t
      → Keeps (Permitted lib job template_name) t (give_up_job lib (tracing o) job₁ now name)
  unfolding give_up_job
  give_up-Keeps wf now name t seen clock spent h = Keeps-effect _ _ (
      write-Keeps lib o template_name job _ _ _ (namespace-Same lib o template_name job same live)
        (status-Follows lib o template_name job same live _ (give_up live spent (rw same.attempts)))
        (gave_up wf now (Observed-there seen) (there clock) spent refl refl) (call records h))

  -- The job is written only if the Delete left no Workflow.
  deleted_or_gone-Keeps :
      {B : Type 0} (r : Result E (Unit {0})) (n : Exec (Trace E) E B) (t : Trace E)
      → Obeys (Permitted lib job template_name) t
      → (IsGone lib job r → Keeps (Permitted lib job template_name) t n)
      → Keeps (Permitted lib job template_name) t (deleted_or_gone lib (tracing o) r >> n)
  unfolding deleted_or_gone ◌>>=◌
  deleted_or_gone-Keeps (ok x) n t h k = record { safe = (k tt).safe }
  deleted_or_gone-Keeps (err e) n t h k = elim (Bool-cases (lib.is_not_found e)) [
    | inl gone ↦ rw gone (record { safe = (k gone).safe })
    | inr failure ↦ rw failure (record { safe = h })
  ]

  -- A status write with no report of the usage.
  plain_write-Keeps :
      {A : Type 0} (job' : TrainingJob) (a : A) (t : Trace E)
      → Follows job job'
      → Grounds lib job job' t
      → Obeys (Permitted lib job template_name) t
      → Keeps (Permitted lib job template_name) t ((tracing o).update_job_status job' >> pure a)
  plain_write-Keeps job' a t f g h =
      let h' = call (writes job' f g) h in
      Keeps-bind _ _ (record { safe = h' }) λ _ _. Keeps-pure _ h'

  retry-Keeps :
      (wf : Fields) (name : String) (t : Trace E)
      → Observed lib job failed true wf t
      → le32 job.status.attempts job.spec.retry.backoff_limit ≡ true
      → Obeys (Permitted lib job template_name) t
      → Keeps (Permitted lib job template_name) t (retry_job lib (tracing o) job₁ wf name)
  unfolding retry_job
  retry-Keeps wf name t seen left h =
      let h' = call (withdraws wf live seen left) h in
      Keeps-try _ _ (
        deleted_or_gone-Keeps _ _ _ h' λ gone. Keeps-effect _ _ (
          plain_write-Keeps _ _ _
            (status-Follows lib o template_name job same live _
              (retry live left (rw same.attempts)))
            (retried wf _ (there here) gone refl) (call records h')))

  follow-Keeps :
      (wf : Fields) (name : String) (t : Trace E)
      → name ≡ attempt_name job
      → Admitted lib job t
      → Observed lib job running false wf t
      → Obeys (Permitted lib job template_name) t
      → Keeps (Permitted lib job template_name) t (follow lib (tracing o) job₁ running name)
  unfolding follow
  follow-Keeps wf name t named admitted seen h =
      let write =
        plain_write-Keeps
          (with_status job₁ (record job₁.status { phase = running; workflow_name = name })) done t
          (status-Follows lib o template_name job same live _ (keep live (rw same.attempts)))
          (followed wf admitted seen refl same.attempts named) h in
      search (Keeps-if, Keeps-pure, write)

  budget-Same :
      le32 job.status.attempts job.spec.retry.backoff_limit
      ≡ le32 job₁.status.attempts job₁.spec.retry.backoff_limit
  budget-Same = rw (← same.attempts, ← same.spec)

  settle-Keeps :
      (wf : Fields) (now : Time) (name : String) (t : Trace E)
      → Observed lib job failed true wf t
      → Before (read_clock now) t
      → Obeys (Permitted lib job template_name) t
      → Keeps (Permitted lib job template_name) t (settle lib (tracing o) job₁ failed wf name now)
  unfolding settle
  settle-Keeps wf now name t seen clock h =
      elim (Bool-cases (le32 job₁.status.attempts job₁.spec.retry.backoff_limit)) [
        | inl left ↦ rw left (retry-Keeps wf name t seen (budget-Same ∙ left) h)
        | inr spent ↦ rw spent (give_up-Keeps wf now name t seen clock (budget-Same ∙ spent) h)
      ]

  propagate-Keeps :
      (wf : Fields) (name : String) (t : Trace E)
      → name ≡ attempt_name job
      → Before (got_unstructured workflow_gvk (attempt_key job) (ok wf)) t
      → Admitted lib job t
      → Obeys (Permitted lib job template_name) t
      → Keeps (Permitted lib job template_name) t (propagate lib (tracing o) job₁ wf name)
  unfolding propagate
  propagate-Keeps wf name t named b admitted h =
      let clocked = call reads_clock h in
      elim (map_workflow_phase-cases (workflow_phase lib wf)) [
        | inl e ↦ rw e (Keeps-total _ _ (complete-Keeps wf _ _ (observed (there b) e) here clocked))
        | inr (inl e) ↦
            rw e (Keeps-total _ _ (settle-Keeps wf _ name _ (observed (there b) e) here clocked))
        | inr (inr e) ↦ rw e (follow-Keeps wf name t named admitted (observed b e) h)
      ]

  ensured-Keeps :
      (name : String) (r : Result E Fields) (t : Trace E)
      → name ≡ attempt_name job
      → Before (got_unstructured workflow_gvk (attempt_key job) r) t
      → Admitted lib job t
      → Obeys (Permitted lib job template_name) t
      → Keeps (Permitted lib job template_name) t (
          ensured lib
            (tracing o)
            template_name
            job₁
            (next_attempt job₁).0
            (next_attempt job₁).1
            name
            r)
  unfolding ensured
  ensured-Keeps name (ok wf) t named b admitted h = propagate-Keeps wf name t named b admitted h
  ensured-Keeps name (err e) t named b admitted h = elim (Bool-cases (lib.is_not_found e)) [
    | inl gone ↦
        rw gone (submit-Keeps lib o template_name job same live name e t named b gone admitted h)
    | inr failure ↦ rw failure (Keeps-raise e h)
  ]

  key-Same : attempt_key job₁ ≡ attempt_key job
  key-Same = rw (attempt_name-Same same, namespace-Same lib o template_name job same live)

  pub ensure_workflow-Keeps :
      (t : Trace E)
      → Admitted lib job t
      → Obeys (Permitted lib job template_name) t
      → Keeps
          (Permitted lib job template_name)
          t
          (ensure_workflow lib (tracing o) template_name job₁)
  unfolding ensure_workflow
  ensure_workflow-Keeps t admitted h =
      let r = o.get_unstructured t workflow_gvk (attempt_key job₁) in
      Keeps-try _ _ (
        ensured-Keeps _ _ _ (attempt_name-Same same)
          (Before-latest
            (ap (λ (k : NamespacedName). got_unstructured workflow_gvk k r) (sym key-Same)))
          (Admitted-there admitted) (call reads_workflow h))
