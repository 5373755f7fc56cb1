-- ===== src/Tests/Endings.antt =====
-- The abstract machine and the end of a job, in concrete clusters.
use fyp.Common.{
  zero, suc, not, ◌<◌, ℕ, ◌+◌, ◌≤◌, Bool, true, false, none, [], ◌==◌, if◌then◌else◌, ◌≡◌, refl, ap,
  arith, inl, inr, Bool-cases,
}
use fyp.Exec.{Result, ok, err}
use fyp.Api.TrainingJob.{TrainingJob, TrainingJobSpec, is_terminal}
use fyp.Api.GpuQuota.{GpuQuota}
use fyp.Controller.QuotaGate.{over_quota}
use fyp.WorkflowBuilder.{Fields, build_workflow}
use fyp.Quota.{used_gpus}
use fyp.Trace.{Oracle, tracing}
use fyp.Lifecycle.{stage_of, is_waiting_phase}
use fyp.Controller.Workflows.{workflow_phase, next_attempt}
use fyp.Controller.Reconcile.{reconcile, finalizer_name}
use fyp.Convergence.{next}
use fyp.Convergence.Stored.{Leaves}
use fyp.Convergence.Attempt.{Finds, nothing, workflow}
use fyp.Convergence.Refinement.{HasRoom, limited, unlimited, reconcile-refines}
use fyp.Convergence.Ends.{shown, end}
use fyp.Convergence.Termination.{after_runs, every_job_ends}
use fyp.Tests.World.{ApiError, not_found, library, answers, request, quota_of, workflow_in}
use fyp.Tests.Scenarios.{new_job, peers, submitting}

reconcile-refines_example :
    Leaves new_job new_job
      (next 1 (stage_of new_job) true none)
      (reconcile library (tracing submitting) "" request [])
unfolding used_gpus
reconcile-refines_example =
    reconcile-refines library submitting "" request new_job refl refl refl refl (λ t j. refl)
      (λ t wf. refl) (λ t wf. refl) (build_workflow new_job (next_attempt new_job).0 "")
      (λ j e. refl) (err not_found) none (λ t. refl) (nothing not_found refl) (ok (quota_of 4))
      peers true (λ t. refl) (λ t. refl) (limited (quota_of 4) false refl)

-- The first attempt fails and the second one succeeds. The quota is full, and no Workflow ends, in
-- every other round.
abbrev second_wins : ℕ → Bool
second_wins a = a == 2

abbrev even : ℕ → Bool
even zero = true
even (suc n) = not (even n)

abbrev current : ℕ → TrainingJob → Fields
current n job = workflow_in (
    if even n then if second_wins job.status.attempts then "Succeeded" else "Failed" else "Running")

abbrev workflow_answer : ℕ → TrainingJob → Result ApiError Fields
workflow_answer n job =
    if is_waiting_phase job.status.phase then err not_found else ok (current n job)

-- A quota that is too small, or none.
abbrev quota_answer : ℕ → Result ApiError GpuQuota
quota_answer n = if even n then err not_found else ok (quota_of 1)

abbrev cluster : ℕ → TrainingJob → Oracle ApiError
cluster n job = answers job (quota_answer n) [] (workflow_answer n job) (100 + n)

workflow_answer-Finds :
    (n : ℕ) (job : TrainingJob)
    → Finds library (workflow_answer n job) (shown second_wins (even n) (stage_of job))
unfolding workflow_phase
workflow_answer-Finds n job = elim (Bool-cases (is_waiting_phase job.status.phase)) [
  | inl waits ↦ rw waits (nothing not_found refl)
  | inr idle ↦ elim (Bool-cases (even n)) [
    | inr odd ↦ rw (idle, odd) (workflow (workflow_in "Running"))
    | inl over ↦ elim (Bool-cases (second_wins job.status.attempts)) [
      | inl win ↦ rw (idle, over, win) (workflow (workflow_in "Succeeded"))
      | inr lose ↦ rw (idle, over, lose) (workflow (workflow_in "Failed"))
    ]
  ]
]

quota_answer-HasRoom :
    (n : ℕ) (job : TrainingJob)
    → job.spec ≡ new_job.spec
    → HasRoom library job [] (quota_answer n) (even n)
unfolding used_gpus
quota_answer-HasRoom n job e = elim (Bool-cases (even n)) [
  | inl free ↦ rw free (unlimited not_found refl)
  | inr full ↦ rw full (
      limited (quota_of 1) true
        (ap (λ (s : TrainingJobSpec). over_quota (used_gpus [] job.metadata.name) s.gpus 1) e))
]

alternating : (n : ℕ) → (m : ℕ) × (n ≤ m) × (m < n + 2) × (even m ≡ true)
alternating n = elim (Bool-cases (even n)) [
  | inl now ↦ (n, omega arith, omega arith, now)
  | inr odd ↦ (suc n, omega arith, omega arith, rw odd refl)
]

every_job_ends_example :
    (k : ℕ) × (k ≤ 8)
    × (stage_of (after_runs library "" request cluster new_job k) ≡ end second_wins 1 1)
    × (is_terminal (after_runs library "" request cluster new_job k) ≡ true)
every_job_ends_example =
    every_job_ends library "" request cluster new_job (λ n j. refl) refl
      (λ j e.
        ap (λ m. library.contains_finalizer (record new_job { metadata = m }) finalizer_name) e)
      (λ n j t j'. refl) (λ n j t wf. refl) (λ n j t wf. refl) (λ wf. wf) (λ j wf e. refl)
      (λ n j. quota_answer n) (λ n j. []) (λ n j t. refl) (λ n j t. refl) even even
      quota_answer-HasRoom second_wins workflow_answer (λ n j t. refl) workflow_answer-Finds 2
      alternating alternating (omega arith) refl refl
