-- ===== src/Tests/Parts.antt =====
-- The theorems on the parts of the operator, applied to concrete jobs, lists and times.
use fyp.Common.{
  ℕ, ◌+◌, ◌*◌, ◌-◌, ◌%◌, ◌^◌, ◌<◌, ◌≤◌, none, some, [], ◌∷◌, ◌≡◌, ◌↔◌, ◌⊎◌, true, false, refl,
  arith, String, eq_iff,
}
use fyp.Common.Text.{Lacks, codes}
use fyp.Exec.{ok, err}
use fyp.Api.TrainingJob.{TrainingJob, running, queued, failed, succeeded}
use fyp.Quota.{used_gpus, count_queued}
use fyp.WorkflowStatus.{map_workflow_phase, map_workflow_phase_lem}
use fyp.WorkflowBuilder.{s3_path, build_workflow, label_training_job, workflow_name}
use fyp.WorkflowBuilder.Names.{workflow_name-injective, s3_path-injective}
use fyp.WorkflowBuilder.Params.{selects, selects-build_workflow}
use fyp.Trace.{tracing, read_clock}
use fyp.Controller.Status.{update_quota_status}
use fyp.Controller.Ttl.{expiry, reconcile_ttl}
use fyp.Controller.QuotaGate.{over_quota}
use fyp.Guarantees.Usage.{
  total_held, total_queued, namespace_usage, running_copy, used_gpus-eq-total_held,
  count_queued-eq-total_queued, admission_within_quota, over_quota_overflow,
}
use fyp.Guarantees.Expiry.{expiry-exact, ttl_schedule}
use fyp.Guarantees.Report.{Refreshed, refresh_calls}
use fyp.Tests.World.{ApiError, library, named_job, job_in}
use fyp.Tests.Scenarios.{new_job, peers, submitting, expiring, ended_job}

abbrev other_job : TrainingJob
other_job = named_job "other" running 1 none

admission_within_quota_example : namespace_usage (other_job ∷ running_copy new_job ∷ []) ≤ 4
unfolding used_gpus
admission_within_quota_example =
    admission_within_quota (other_job ∷ []) [] new_job 4
      (ground (arith, eq_iff "other" "mnist"), tt) tt (omega arith) (omega arith) refl

ttl_schedule_example :
    (60000000005 < 5 + 60 * 1000000000
      → reconcile_ttl library (tracing expiring) ended_job [] ≡ (
        ok (record { requeue = false; requeue_after = 5 + 60 * 1000000000 - 60000000005 }),
        read_clock 60000000005 ∷ [],
      ))
    × (5 + 60 * 1000000000 ≤ 60000000005
        → let after = reconcile_ttl library (tracing expiring) ended_job [] in
          let (answer, t) = (tracing expiring).delete_job ended_job (read_clock 60000000005 ∷ []) in
          (after.1 ≡ t)
          × (answer ≡ ok tt → after.0 ≡ ok (record { requeue = false; requeue_after = 0 }))
          × ((e : ApiError)
              → answer ≡ err e
              → library.ignore_not_found e ≡ none
              → after.0 ≡ ok (record { requeue = false; requeue_after = 0 }))
          × ((e kept : ApiError)
              → answer ≡ err e
              → library.ignore_not_found e ≡ some kept
              → after.0 ≡ err kept))
ttl_schedule_example =
    ttl_schedule library (tracing expiring) ended_job 60 5 [] refl refl (omega arith) (omega arith)

expiry-exact_example : expiry ended_job ≡ some (5 + 60 * 1000000000)
expiry-exact_example = expiry-exact ended_job refl refl (omega arith)

used_gpus-eq-total_held_example : used_gpus peers "mnist" ≡ total_held "mnist" peers % 2 ^ 32
used_gpus-eq-total_held_example = used_gpus-eq-total_held peers "mnist"

count_queued-eq-total_queued_example :
    count_queued (job_in queued 0 ∷ peers) ≡ total_queued (job_in queued 0 ∷ peers) % 2 ^ 32
count_queued-eq-total_queued_example = count_queued-eq-total_queued (job_in queued 0 ∷ peers)

over_quota_overflow_example : over_quota (used_gpus peers "mnist") (2 ^ 31 - 1) 4 ≡ false
over_quota_overflow_example =
    over_quota_overflow peers "mnist" (2 ^ 31 - 1) 4 (omega arith) (omega arith) (omega arith)
      (omega arith)

workflow_name-injective_example :
    (new_job.metadata.name ≡ (job_in running 1).metadata.name) × (◌≡◌ {A = ℕ} 2 2)
unfolding workflow_name
workflow_name-injective_example =
    workflow_name-injective new_job (job_in running 1) 2 2 (omega arith) (omega arith) refl

Lacks-team : Lacks 47 (codes new_job.metadata.namespace)
Lacks-team = ground arith

Lacks-mnist : Lacks 47 (codes new_job.metadata.name)
Lacks-mnist = ground arith

s3_path-injective_example :
    (new_job.spec.output.bucket ≡ (job_in running 1).spec.output.bucket)
    × (new_job.metadata.namespace ≡ (job_in running 1).metadata.namespace)
    × (new_job.metadata.name ≡ (job_in running 1).metadata.name)
unfolding s3_path
s3_path-injective_example =
    s3_path-injective new_job (job_in running 1) Lacks-team Lacks-team Lacks-mnist Lacks-mnist refl

selects-build_workflow_example :
    (selects ((label_training_job, "mnist") ∷ []) (build_workflow new_job 1 "") ≡ true)
    ↔ (new_job.metadata.name ≡ "mnist")
selects-build_workflow_example = selects-build_workflow new_job "mnist" 1 ""

abbrev argo_phase : String
argo_phase = "Error"

map_workflow_phase_lem_example :
    ((map_workflow_phase argo_phase).1 ≡ true
      ↔ (argo_phase ≡ "Succeeded") ⊎ ((argo_phase ≡ "Failed") ⊎ (argo_phase ≡ "Error")))
    × ((map_workflow_phase argo_phase).1 ≡ false → (map_workflow_phase argo_phase).0 ≡ running)
    × (argo_phase ≡ "Succeeded" → (map_workflow_phase argo_phase).0 ≡ succeeded)
    × ((argo_phase ≡ "Failed") ⊎ (argo_phase ≡ "Error")
        → (map_workflow_phase argo_phase).0 ≡ failed)
map_workflow_phase_lem_example = map_workflow_phase_lem argo_phase

refresh_calls_example :
    Refreshed submitting "team" [] (update_quota_status (tracing submitting) "team" [])
refresh_calls_example = refresh_calls submitting "team" []
