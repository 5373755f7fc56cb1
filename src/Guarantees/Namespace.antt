-- ===== src/Guarantees/Namespace.antt =====
-- The jobs of a namespace under any sequence of runs, with new jobs and deletions between them. The
-- controller has one worker, so runs do not overlap.
use fyp.Common.{
  ℕ, ◌+◌, ◌^◌, ◌≤◌, ◌<◌, String, false, List, [], ◌∷◌, ◌++◌, ◌≡◌, refl, ap, ap₂, ◌∙◌, ◌⊎◌, inl, inr,
  Bool-cases, arith, if◌then◌else◌,
}
use fyp.Common.Words.{Int32}
use fyp.Exec.{ok, err}
use fyp.Api.TrainingJob.{TrainingJob, TrainingJobSpec, ◌==ᵖ◌, unset, running}
use fyp.Api.GpuQuota.{GpuQuota}
use fyp.Platform.{Library, NamespacedName}
use fyp.Trace.{
  Call, Trace, Oracle, tracing, Before, here, there, got_job, got_quota, got_unstructured,
  listed_jobs, updated_job, deleted_job, created_unstructured, deleted_unstructured, deleted_all_of,
  updated_job_status, updated_quota_status, read_clock, recorded,
}
use fyp.Protocol.{measured, quota_key}
use fyp.Quota.{used_gpus}
use fyp.Controller.QuotaGate.{over_quota}
use fyp.Controller.Reconcile.{reconcile}
use fyp.Guarantees.Lives.{run-Follows}
use fyp.Guarantees.Usage.{
  namespace_usage, namespace_usage-append, running_copy, LacksName, admission_within_quota,
}
use fyp.Guarantees.Submissions.{Granted, no_quota, fits, running_needs_grant}
use fyp.Convergence.Stored.{stored}

-- The GPUs that a job holds.
abbrev usage : TrainingJob → ℕ
usage job = if job.status.phase ==ᵖ running then job.spec.gpus else 0

-- The list shows the other jobs as they are, and one with this job's name and spec.
pub data Shows (xs ys : List TrainingJob) (job : TrainingJob) : List TrainingJob → Type 0 where
  shows :
      (job' : TrainingJob)
      → job'.metadata.name ≡ job.metadata.name
      → job'.spec ≡ job.spec
      → Shows xs ys job (xs ++ job' ∷ ys)

later :
    {E : Type 0} {job job' : TrainingJob} {c d : Call E} {t : Trace E}
    → (job' ≡ job) ⊎ Before c t
    → (job' ≡ job) ⊎ Before c (d ∷ t)
later (inl e) = inl e
later (inr b) = inr (there b)

-- The job that is left is the one that was read, or one that was written.
stored-cases :
    {E : Type 0} (job : TrainingJob) (t : Trace E)
    → (stored job t ≡ job) ⊎ Before (updated_job_status (stored job t) (ok tt)) t
stored-cases job [] = inl refl
stored-cases job (updated_job_status j (ok tt) ∷ t) = inr here
stored-cases job (got_job n r ∷ t) = later (stored-cases job t)
stored-cases job (got_quota n r ∷ t) = later (stored-cases job t)
stored-cases job (got_unstructured g n r ∷ t) = later (stored-cases job t)
stored-cases job (listed_jobs n r ∷ t) = later (stored-cases job t)
stored-cases job (updated_job j r ∷ t) = later (stored-cases job t)
stored-cases job (deleted_job j r ∷ t) = later (stored-cases job t)
stored-cases job (created_unstructured wf r ∷ t) = later (stored-cases job t)
stored-cases job (deleted_unstructured wf r ∷ t) = later (stored-cases job t)
stored-cases job (deleted_all_of g n l r ∷ t) = later (stored-cases job t)
stored-cases job (updated_job_status j (err e) ∷ t) = later (stored-cases job t)
stored-cases job (updated_quota_status q r ∷ t) = later (stored-cases job t)
stored-cases job (read_clock now ∷ t) = later (stored-cases job t)
stored-cases job (recorded j type reason message ∷ t) = later (stored-cases job t)

module _ {E : Type 0} (lib : Library E) (template_name : String) (hard : Int32) where
  abbrev calls_of_run : Oracle E → NamespacedName → Trace E
  calls_of_run o req = (reconcile lib (tracing o) template_name req []).1

  -- The jobs of a namespace whose GPUQuota has `hard` GPUs. A run reads its job, that quota, and lists
  -- that show the other jobs as they are; the job's name is its own, and its GPUs with those of the
  -- quota are below 2 ^ 31. Its environment is any oracle otherwise.
  pub data Serial : List TrainingJob → Type 0 where
    empty : Serial []
    created :
        (xs ys : List TrainingJob) (job : TrainingJob)
        → Serial (xs ++ ys)
        → job.status.phase ≡ unset
        → Serial (xs ++ job ∷ ys)
    removed :
        (xs ys : List TrainingJob) (job : TrainingJob) → Serial (xs ++ job ∷ ys) → Serial (xs ++ ys)
    edited :
        (xs ys : List TrainingJob) (job job' : TrainingJob)
        → Serial (xs ++ job ∷ ys)
        → job'.spec ≡ job.spec
        → job'.status ≡ job.status
        → Serial (xs ++ job' ∷ ys)
    run :
        (xs ys : List TrainingJob) (job : TrainingJob) (o : Oracle E) (req : NamespacedName)
        → Serial (xs ++ job ∷ ys)
        → o.get_job [] req ≡ ok job
        → LacksName job.metadata.name xs
        → LacksName job.metadata.name ys
        → hard + job.spec.gpus < 2 ^ 31
        → ((quota : GpuQuota)
            → Before (got_quota (quota_key job) (ok quota)) (calls_of_run o req)
            → quota.spec.hard_gpus ≡ hard)
        → ((e : E)
            → Before (got_quota (quota_key job) (err e)) (calls_of_run o req)
            → lib.is_not_found e ≡ false)
        → ((peers : List TrainingJob)
            → Before (listed_jobs job.metadata.namespace (ok peers)) (calls_of_run o req)
            → Shows xs ys job peers)
        → Serial (xs ++ stored job (calls_of_run o req) ∷ ys)

  split_usage :
      (xs ys : List TrainingJob) (job : TrainingJob)
      → namespace_usage (xs ++ job ∷ ys) ≡ namespace_usage xs + (usage job + namespace_usage ys)
  split_usage xs ys job = namespace_usage-append xs (job ∷ ys)

  -- The other jobs stay as they are, so what counts is whether the job's GPUs are used anew.
  idle_within :
      (xs ys : List TrainingJob) (job job' : TrainingJob)
      → namespace_usage (xs ++ job ∷ ys) ≤ hard
      → usage job' ≤ usage job
      → namespace_usage (xs ++ job' ∷ ys) ≤ hard
  idle_within xs ys job job' le u = omega (arith, split_usage xs ys job, split_usage xs ys job')

  admitted_within :
      (xs ys : List TrainingJob) (job job' : TrainingJob) (peers : List TrainingJob)
      → namespace_usage (xs ++ job ∷ ys) ≤ hard
      → LacksName job.metadata.name xs
      → LacksName job.metadata.name ys
      → hard + job.spec.gpus < 2 ^ 31
      → job'.spec ≡ job.spec
      → job'.status.phase ≡ running
      → Shows xs ys job peers
      → over_quota (used_gpus peers job.metadata.name) job.spec.gpus hard ≡ false
      → namespace_usage (xs ++ job' ∷ ys) ≤ hard
  admitted_within xs ys job job' _ le lx ly small s p (shows seen same spec) room =
      let gpus : seen.spec.gpus ≡ job.spec.gpus = ap (λ (x : TrainingJobSpec). x.gpus) spec in
      let gpus' : job'.spec.gpus ≡ job.spec.gpus = ap (λ (x : TrainingJobSpec). x.gpus) s in
      let held : usage job' ≡ job.spec.gpus = rw p gpus' in
      let bound =
        admission_within_quota xs ys seen hard (rw same lx) (rw same ly)
          (omega (arith, split_usage xs ys job, gpus)) (omega arith)
          (ap₂ (λ n g. over_quota (used_gpus (xs ++ seen ∷ ys) n) g hard) same gpus ∙ room) in
      omega
        (arith, bound, held, gpus, split_usage xs ys (running_copy seen), split_usage xs ys job')

  module _ (xs ys : List TrainingJob) (job : TrainingJob) (o : Oracle E) (req : NamespacedName)
      (before : namespace_usage (xs ++ job ∷ ys) ≤ hard) (read : o.get_job [] req ≡ ok job)
      (lx : LacksName job.metadata.name xs) (ly : LacksName job.metadata.name ys)
      (small : hard + job.spec.gpus < 2 ^ 31)
      (limit : (quota : GpuQuota)
        → Before (got_quota (quota_key job) (ok quota)) (calls_of_run o req)
        → quota.spec.hard_gpus ≡ hard)
      (there_is : (e : E)
        → Before (got_quota (quota_key job) (err e)) (calls_of_run o req)
        → lib.is_not_found e ≡ false)
      (fresh : (peers : List TrainingJob)
        → Before (listed_jobs job.metadata.namespace (ok peers)) (calls_of_run o req)
        → Shows xs ys job peers) where
    reentry_within :
        (job' : TrainingJob)
        → job'.spec ≡ job.spec
        → job'.status.phase ≡ running
        → (job.status.phase ≡ running) ⊎ Granted lib job (calls_of_run o req)
        → namespace_usage (xs ++ job' ∷ ys) ≤ hard
    reentry_within job' s p (inl q) =
        let same : usage job' ≡ usage job = rw (p, q, s) refl in
        idle_within xs ys job job' before (omega (arith, same))
    reentry_within job' s p (inr (no_quota e b gone)) = absurd (let n = there_is e b in cc)
    reentry_within job' s p (inr (fits (measured quota peers b l room))) =
        admitted_within xs ys job job' peers before lx ly small s p (fresh peers l)
          (rw (limit quota b) at room)

    written_within :
        (job' : TrainingJob)
        → Before (updated_job_status job' (ok tt)) (calls_of_run o req)
        → namespace_usage (xs ++ job' ∷ ys) ≤ hard
    written_within job' b =
        let f = run-Follows lib template_name o req job job' (ok tt) read b in
        elim (Bool-cases (job'.status.phase ==ᵖ running)) [
          | inl p ↦
              let q : job'.status.phase ≡ running = ground arith in
              reentry_within job' f.spec q
                (running_needs_grant lib o template_name req job read job' (ok tt) b q)
          | inr n ↦
              let none : usage job' ≡ 0 = rw n refl in
              idle_within xs ys job job' before (omega (arith, none))
        ]

    run_within : namespace_usage (xs ++ stored job (calls_of_run o req) ∷ ys) ≤ hard
    run_within = elim (stored-cases job (calls_of_run o req)) [
      | inl e ↦ rw e before
      | inr b ↦ written_within _ b
    ]

  -- The quota holds: from an empty namespace, after any number of new jobs without a phase, deletions,
  -- edits of metadata, and runs of `Reconcile`, the GPUs of all Running jobs are at most hardGPUs. The
  -- runs do not overlap; each may meet any errors, but reads the job as it is, no other hardGPUs and
  -- no missing quota, and lists that show the other jobs as they are. Names differ in the namespace,
  -- and a job's GPUs with hardGPUs are below 2 ^ 31.
  pub serial_within_quota : {jobs : List TrainingJob} → Serial jobs → namespace_usage jobs ≤ hard
  serial_within_quota empty = omega arith
  serial_within_quota (created xs ys job past p) =
      let none : usage job ≡ 0 = rw p refl in
      omega
        (arith, serial_within_quota past, namespace_usage-append xs ys, split_usage xs ys job, none)
  serial_within_quota (removed xs ys job past) =
      omega (arith, serial_within_quota past, namespace_usage-append xs ys, split_usage xs ys job)
  serial_within_quota (edited xs ys job job' past s t) =
      let same : usage job' ≡ usage job = rw (s, t) refl in
      idle_within xs ys job job' (serial_within_quota past) (omega (arith, same))
  serial_within_quota (run xs ys job o req past read lx ly small limit gone fresh) =
      run_within xs ys job o req (serial_within_quota past) read lx ly small limit gone fresh
