-- ===== src/Guarantees/Submissions.antt =====
-- When a run creates a Workflow, and that only terminal Workflow phases move a job.
use fyp.Common.{
  String, ◌%◌, ◌^◌, refl, List, [], true, false, ◌≡◌, ◌≢◌, subst, ◌⊎◌, inl, inr, Bool-cases, arith,
}
use fyp.Exec.{Result, ok, err}
use fyp.Api.TrainingJob.{TrainingJob, running, queued}
use fyp.Api.GpuQuota.{GpuQuota}
use fyp.Guarantees.Usage.{
  total_held, total_queued, used_gpus-eq-total_held, count_queued-eq-total_queued,
}
use fyp.WorkflowBuilder.{Fields, GroupVersionKind, workflow_gvk}
use fyp.WorkflowStatus.{map_workflow_phase}
use fyp.Platform.{Library, NamespacedName}
use fyp.Trace.{
  Call, Trace, Oracle, tracing, got_quota, got_unstructured, listed_jobs, updated_quota_status,
  updated_job_status, created_unstructured, deleted_unstructured,
}
use fyp.Lifecycle.{is_waiting_phase, is_live_phase}
use fyp.Protocol.{
  Before, Permitted, Measured, measured, Admitted, started, unlimited, within, observed, writes,
  submits, withdraws, reports, parked, submitted, followed, completed, retried, gave_up, quota_key,
  attempt_key,
}
use fyp.Protocol.Runs.{reconcile-Obeys}
use fyp.Guarantees.Lives.{Before-rule}
use fyp.Guarantees.Deletions.{Edge-live}
use fyp.Controller.Workflows.{workflow_phase}
use fyp.Controller.Reconcile.{reconcile}

module _ {E : Type 0} (lib : Library E) (job : TrainingJob) where
  -- The namespace has no GPUQuota, or the GPUs of its other Running jobs and of this one fit.
  pub data Granted (t : Trace E) : Type 0 where
    no_quota :
        (e : E)
        → Before (got_quota (quota_key job) (err e)) t
        → lib.is_not_found e ≡ true
        → Granted t
    fits : Measured lib job false t → Granted t

module _ {E : Type 0} (lib : Library E) (o : Oracle E) (template_name : String)
    (req : NamespacedName) (job : TrainingJob) (read : o.get_job [] req ≡ ok job) where
  abbrev calls : Trace E
  calls = (reconcile lib (tracing o) template_name req []).1

  permitted :
      {c : Call E}
      → Before c calls
      → (t : Trace E) × Permitted lib job template_name c t
        × ((d : Call E) → Before d t → Before d calls)
  permitted b = Before-rule b (reconcile-Obeys lib o template_name job req read)

  grant :
      {t : Trace E}
      → Admitted lib job t
      → ((d : Call E) → Before d t → Before d calls)
      → is_waiting_phase job.status.phase ≡ true
      → Granted lib job calls
  grant (started e) up w = cc
  grant (unlimited e b gone) up w = no_quota e (up _ b) gone
  grant (within (measured q peers b l e)) up w = fits (measured q peers (up _ b) (up _ l) e)

  creation :
      {wf : Fields} {r : Result E (Unit {0})} {t : Trace E}
      → Permitted lib job template_name (created_unstructured wf r) t
      → ((d : Call E) → Before d t → Before d calls)
      → (is_live_phase job.status.phase ≡ true)
        × (e : E) × Before (got_unstructured workflow_gvk (attempt_key job) (err e)) calls
        × (lib.is_not_found e ≡ true)
        × (is_waiting_phase job.status.phase ≡ true → Granted lib job calls)
  creation (submits owner wf e live a b gone same built) up = (live, e, up _ b, gone, grant a up)

  -- A run creates a Workflow only for a job that is not terminal, after it has read that the
  -- Workflow of the attempt is not there; for a job that waits (it has no phase yet, or is Pending
  -- or Queued) only after the run has found no quota, or a quota and a list of jobs by which the
  -- job's GPUs are not over it.
  pub creation_needs_grant :
      (wf : Fields) (r : Result E (Unit {0}))
      → Before (created_unstructured wf r) calls
      → (is_live_phase job.status.phase ≡ true)
        × (e : E) × Before (got_unstructured workflow_gvk (attempt_key job) (err e)) calls
        × (lib.is_not_found e ≡ true)
        × (is_waiting_phase job.status.phase ≡ true → Granted lib job calls)
  creation_needs_grant wf r b = let (t, j, up) = permitted b in creation j up

  live_cases :
      is_live_phase job.status.phase ≡ true
      → (is_waiting_phase job.status.phase ≡ true → Granted lib job calls)
      → (job.status.phase ≡ running) ⊎ Granted lib job calls
  live_cases live waits = elim (Bool-cases (is_waiting_phase job.status.phase)) [
    | inl w ↦ inr (waits w)
    | inr idle ↦ inl (ground arith)
  ]

  entry :
      {job' : TrainingJob} {r : Result E (Unit {0})} {t : Trace E}
      → Permitted lib job template_name (updated_job_status job' r) t
      → ((d : Call E) → Before d t → Before d calls)
      → job'.status.phase ≡ running
      → (job.status.phase ≡ running) ⊎ Granted lib job calls
  entry (writes job' f (parked m q)) up p = cc
  entry (writes job' f (submitted wf b q a n)) up p =
      let (live, e, missing, gone, waits) = creation_needs_grant wf (ok tt) (up _ b) in
      live_cases live waits
  entry (writes job' f (followed wf adm seen q a n)) up p =
      live_cases (Edge-live f.edge) (grant adm up)
  entry (writes job' f (completed wf now seen c q d m)) up p = cc
  entry (writes job' f (retried wf s b g q)) up p = cc
  entry (writes job' f (gave_up wf now seen c spent q d)) up p = cc

  -- A run writes Running only for a job that it read as Running, or after it has found no quota, or a
  -- quota and a list of jobs by which the job's GPUs are not over it.
  pub running_needs_grant :
      (job' : TrainingJob) (r : Result E (Unit {0}))
      → Before (updated_job_status job' r) calls
      → job'.status.phase ≡ running
      → (job.status.phase ≡ running) ⊎ Granted lib job calls
  running_needs_grant job' r b = let (t, j, up) = permitted b in entry j up

  queueing :
      {job' : TrainingJob} {r : Result E (Unit {0})} {t : Trace E}
      → Permitted lib job template_name (updated_job_status job' r) t
      → ((d : Call E) → Before d t → Before d calls)
      → job'.status.phase ≡ queued
      → Measured lib job true calls
  queueing (writes job' f (parked (measured q peers b l e) p)) up w =
      measured q peers (up _ b) (up _ l) e
  queueing (writes job' f (submitted wf b p a n)) up w = cc
  queueing (writes job' f (followed wf adm seen p a n)) up w = cc
  queueing (writes job' f (completed wf now seen c p d m)) up w = cc
  queueing (writes job' f (retried wf s b g p)) up w = cc
  queueing (writes job' f (gave_up wf now seen c spent p d)) up w = cc

  -- A run writes Queued only after it has read a quota and a list of the namespace's jobs by which the
  -- GPUs of the job are over the quota.
  pub queueing_needs_shortage :
      (job' : TrainingJob) (r : Result E (Unit {0}))
      → Before (updated_job_status job' r) calls
      → job'.status.phase ≡ queued
      → Measured lib job true calls
  queueing_needs_shortage job' r b w = let (t, j, up) = permitted b in queueing j up w

  -- The status of the quota that is written counts the jobs of a list that was read.
  pub record IsReport (q : GpuQuota) (t : Trace E) : Type 0 where
    pub quota : GpuQuota
    pub jobs : List TrainingJob
    pub got : Before (got_quota (quota_key job) (ok quota)) t
    pub listed : Before (listed_jobs job.metadata.namespace (ok jobs)) t
    pub metadata : q.metadata ≡ quota.metadata
    pub spec : q.spec ≡ quota.spec
    pub used : q.status.used_gpus ≡ total_held "" jobs % 2 ^ 32
    pub queued_jobs : q.status.queued_jobs ≡ total_queued jobs % 2 ^ 32

  report :
      {q : GpuQuota} {r : Result E (Unit {0})} {t : Trace E}
      → Permitted lib job template_name (updated_quota_status q r) t
      → ((d : Call E) → Before d t → Before d calls)
      → IsReport q calls
  report (reports quota jobs b l) up = record {
    quota = quota;
    jobs = jobs;
    got = up _ b;
    listed = up _ l;
    metadata = refl;
    spec = refl;
    used = used_gpus-eq-total_held jobs "";
    queued_jobs = count_queued-eq-total_queued jobs;
  }

  -- A run writes the status of a GPUQuota only for the quota of the job's namespace that it has read,
  -- with metadata and spec as they were, and with the GPUs of the Running jobs and the number of the
  -- Queued jobs in the list that it has read, modulo 2 ^ 32.
  pub quota_status_counts_jobs :
      (q : GpuQuota) (r : Result E (Unit {0}))
      → Before (updated_quota_status q r) calls
      → IsReport q calls
  quota_status_counts_jobs q r b = let (t, j, up) = permitted b in report j up

  module _
      (unfinished : (g : GroupVersionKind) (k : NamespacedName) (wf : Fields)
        → Before (got_unstructured g k (ok wf)) calls
        → map_workflow_phase (workflow_phase lib wf) ≡ (running, false)) where
    no_withdrawal :
        {wf : Fields} {r : Result E (Unit {0})} {t : Trace E}
        → Permitted lib job template_name (deleted_unstructured wf r) t
        → ((d : Call E) → Before d t → Before d calls)
        → ⊥
    no_withdrawal (withdraws wf live (observed b e) left) up =
        let e' = unfinished _ _ wf (up _ b) in cc

    unfinished_phase :
        {job' : TrainingJob} {r : Result E (Unit {0})} {t : Trace E}
        → Permitted lib job template_name (updated_job_status job' r) t
        → ((d : Call E) → Before d t → Before d calls)
        → (job'.status.phase ≡ running) ⊎ (job'.status.phase ≡ queued)
    unfinished_phase (writes job' f (parked m p)) up = inr p
    unfinished_phase (writes job' f (submitted wf b p a n)) up = inl p
    unfinished_phase (writes job' f (followed wf adm seen p a n)) up = inl p
    unfinished_phase (writes job' f (completed wf now (observed b e) c p d m)) up =
        let e' = unfinished _ _ wf (up _ b) in cc
    unfinished_phase (writes job' f (retried wf s b g p)) up =
        let (t', j, up') = permitted (up _ b) in absurd (no_withdrawal j up')
    unfinished_phase (writes job' f (gave_up wf now (observed b e) c spent p d)) up =
        let e' = unfinished _ _ wf (up _ b) in cc

    -- Retry-layer isolation: if every Workflow that the run reads is in an Argo phase that is not
    -- terminal, the run deletes no Workflow, and every status that it writes is Running or Queued.
    pub isolation :
        (c : Call E)
        → Before c calls
        → ((wf : Fields) (r : Result E (Unit {0})) → c ≢ deleted_unstructured wf r)
          × ((job' : TrainingJob) (r : Result E (Unit {0}))
              → c ≡ updated_job_status job' r
              → (job'.status.phase ≡ running) ⊎ (job'.status.phase ≡ queued))
    isolation c b = (
      λ wf r e. let (t, j, up) = permitted (subst (λ d. Before d calls) e b) in no_withdrawal j up,
      λ job' r e.
          let (t, j, up) = permitted (subst (λ d. Before d calls) e b) in unfinished_phase j up,
    )
