-- ===== src/Guarantees/Adoption.antt =====
-- The recovery after a lost status write: the Workflow of the next attempt is there, and the status
-- does not count it.
use fyp.Common.{◌+◌, ◌-◌, ◌^◌, ◌<◌, String, [], true, ◌≡◌, ◌≢◌, sym, ap, ◌∙◌, subst, arith}
use fyp.Common.Words.{Int32}
use fyp.Exec.{Result, ok}
use fyp.Api.TrainingJob.{TrainingJob, running}
use fyp.WorkflowBuilder.{Fields, workflow_name, workflow_gvk}
use fyp.WorkflowBuilder.Names.{workflow_name-injective}
use fyp.Platform.{Library, NamespacedName}
use fyp.Trace.{Trace, Oracle, tracing, updated_job_status, created_unstructured, got_unstructured}
use fyp.Lifecycle.{is_waiting_phase}
use fyp.Protocol.{
  Before, Permitted, observed, writes, parked, submitted, followed, completed, retried, gave_up,
  attempt_name, attempt_key,
}
use fyp.Protocol.Runs.{reconcile-Obeys}
use fyp.Guarantees.Lives.{Before-rule}
use fyp.Controller.Workflows.{next_attempt}
use fyp.Controller.Reconcile.{reconcile}

-- The attempt that a run ensures: the one after those counted for a job that waits, and the last one
-- counted for a job that runs.
pub next_attempt-waiting :
    (job : TrainingJob)
    → is_waiting_phase job.status.phase ≡ true
    → job.status.attempts < 2 ^ 31 - 1
    → (next_attempt job).0 ≡ job.status.attempts + 1
unfolding next_attempt
next_attempt-waiting job w h = ground arith

next_attempt-running :
    (job : TrainingJob)
    → job.status.phase ≡ running
    → 0 < job.status.attempts
    → (next_attempt job).0 ≡ job.status.attempts
unfolding next_attempt
next_attempt-running job p h = ground arith

workflow_name-metadata :
    (job job' : TrainingJob) (n : Int32)
    → job'.metadata ≡ job.metadata
    → workflow_name job' n ≡ workflow_name job n
unfolding workflow_name
workflow_name-metadata job job' n m = rw m

module _ {E : Type 0} (lib : Library E) (o : Oracle E) (template_name : String)
    (req : NamespacedName) (job : TrainingJob) (read : o.get_job [] req ≡ ok job) where
  adopted :
      {job' : TrainingJob} {r : Result E (Unit {0})} {t : Trace E}
      → Permitted lib job template_name (updated_job_status job' r) t
      → ((wf : Fields) → ¬ Before (created_unstructured wf (ok tt)) t)
      → job'.status.phase ≡ running
      → (job'.status.attempts ≡ job.status.attempts)
        × (job'.status.workflow_name ≡ attempt_name job)
        × (job'.metadata ≡ job.metadata)
        × (wf : Fields) × Before (got_unstructured workflow_gvk (attempt_key job) (ok wf)) t
  adopted (writes job' f (parked m p)) none_made q = cc
  adopted (writes job' f (submitted wf b p a n)) none_made q = absurd (none_made wf b)
  adopted (writes job' f (followed wf adm (observed b e) p a n)) none_made q =
      (a, n, f.metadata, wf, b)
  adopted (writes job' f (completed wf now seen c p d m)) none_made q = cc
  adopted (writes job' f (retried wf s b g p)) none_made q = cc
  adopted (writes job' f (gave_up wf now seen c e p d)) none_made q = cc

  -- A run that reads a waiting job, creates no Workflow and writes Running, has found the Workflow
  -- of the next attempt. It writes that Workflow's name and leaves the attempts as they are, so
  -- that a run that reads this status looks for the Workflow of the attempt before, which has
  -- another name. The job has one attempt counted or more, and fewer than 2 ^ 31 - 1.
  pub adoption_is_forgotten :
      (job' : TrainingJob) (r : Result E (Unit {0}))
      → is_waiting_phase job.status.phase ≡ true
      → 0 < job.status.attempts
      → job.status.attempts < 2 ^ 31 - 1
      → ((wf : Fields)
          → ¬ Before
              (created_unstructured wf (ok tt))
              (reconcile lib (tracing o) template_name req []).1)
      → Before (updated_job_status job' r) (reconcile lib (tracing o) template_name req []).1
      → job'.status.phase ≡ running
      → ((wf : Fields) × Before
            (got_unstructured
              (record { group = "argoproj.io"; version = "v1alpha1"; kind = "Workflow" })
              (record {
                namespace = job.metadata.namespace;
                name = workflow_name job (job.status.attempts + 1);
              })
              (ok wf))
            (reconcile lib (tracing o) template_name req []).1)
        × (job'.status.workflow_name ≡ workflow_name job (job.status.attempts + 1))
        × (job'.status.attempts ≡ job.status.attempts)
        × (attempt_name job' ≡ workflow_name job job.status.attempts)
        × (attempt_name job' ≢ job'.status.workflow_name)
  adoption_is_forgotten job' r waits some_made small none_made b p =
      let (t, j, up) = Before-rule b (reconcile-Obeys lib o template_name job req read) in
      let (a, n, m, wf, found) = adopted j (λ wf k. none_made wf (up _ k)) p in
      let next = ap (workflow_name job) (next_attempt-waiting job waits small) in
      let first = n ∙ ap (workflow_name job) (next_attempt-waiting job waits small) in
      let second =
        workflow_name-metadata job job' _ m
        ∙ ap (workflow_name job) (next_attempt-running job' p (omega arith) ∙ a) in
      (
        (
          wf,
          subst
              (λ n.
                Before
                  (got_unstructured workflow_gvk
                    (record { namespace = job.metadata.namespace; name = n }) (ok wf))
                  (reconcile lib (tracing o) template_name req []).1)
              next (up _ found),
        ),
        first,
        a,
        second,
        λ e.
            let (_, same) =
              workflow_name-injective job job job.status.attempts (job.status.attempts + 1)
                (omega arith) (omega arith) (sym second ∙ e ∙ first) in
            omega arith,
      )
