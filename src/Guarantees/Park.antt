-- ===== src/Guarantees/Park.antt =====
-- What a run does with a job that waits and does not fit into the quota.
use fyp.Common.{◌+◌, ◌^◌, ◌<◌, String, List, [], ◌∷◌, true, false, ◌≡◌, refl, Bool-cases, inl, inr}
use fyp.Common.Words.{Int32, IsNonneg32}
use fyp.Exec.{Result, ok, ◌>>=◌}
use fyp.Api.TrainingJob.{TrainingJob, queued, ◌==ᵖ◌}
use fyp.Api.GpuQuota.{GpuQuota}
use fyp.Quota.{used_gpus}
use fyp.WorkflowBuilder.{Fields}
use fyp.Platform.{Library, NamespacedName, CtrlResult}
use fyp.Trace.{
  Trace, Oracle, tracing, got_job, got_quota, listed_jobs, updated_job_status, created_unstructured,
}
use fyp.Protocol.{Before, here, there, quota_key}
use fyp.Guarantees.Usage.{total_held, over_quota_iff}
use fyp.Guarantees.Create.{waiting-open}
use fyp.Guarantees.Refresh.{refreshed, refreshed-created}
use fyp.Controller.QuotaGate.{Admission, park, weigh, quota_gate, announce}
use fyp.Controller.Reconcile.{finalizer_name, is_waiting, advance, reconcile_job, reconcile}

module _ {E : Type 0} (lib : Library E) (o : Oracle E)
    (writable : (t : Trace E) (j : TrainingJob) → o.update_job_status t j ≡ ok tt) where
  announce-created :
      (job : TrainingJob) (used hard : Int32) {wf : Fields} {r : Result E (Unit {0})} (t : Trace E)
      → Before (created_unstructured wf r) (announce (tracing o) job used hard t)
      → Before (created_unstructured wf r) t
  unfolding announce
  announce-created job used hard {wf} {r} t = elim (Bool-cases (job.status.phase ==ᵖ queued)) [
    | inl again ↦ rw again (λ b. b)
    | inr first ↦ rw first (λ b. elim b [ there k ↦ k ])
  ]

  park-Before :
      (job : TrainingJob) (used hard : Int32) (t : Trace E)
      → let after = park lib (tracing o) job used hard t in
        (adm : Admission) × (after.0 ≡ ok adm)
        × (adm.admitted ≡ false)
        × (adm.result ≡ record { requeue = false; requeue_after = 15000000000 })
        × Before (updated_job_status adm.job (ok tt)) after.1
        × (adm.job.metadata ≡ job.metadata)
        × (adm.job.spec ≡ job.spec)
        × (adm.job.status.phase ≡ queued)
        × (adm.job.status.attempts ≡ job.status.attempts)
        × ((wf : Fields) (r : Result E (Unit {0}))
            → Before (created_unstructured wf r) after.1
            → Before (created_unstructured wf r) t)
  unfolding park ◌>>=◌
  park-Before job used hard t = rw (writable _ _) (
      let (r, b) = refreshed o job.metadata.namespace _ here in
      (
        _,
        r,
        refl,
        refl,
        b,
        refl,
        refl,
        refl,
        refl,
        λ wf s k.
            announce-created job used hard t
              (elim (refreshed-created o job.metadata.namespace _ k) [ there c ↦ c ]),
      ))

module _ {E : Type 0} (lib : Library E) (o : Oracle E) (template_name : String)
    (req : NamespacedName) (job : TrainingJob) (read : o.get_job [] req ≡ ok job)
    (alive : lib.is_zero job.metadata.deletion_timestamp ≡ true)
    (held : lib.contains_finalizer job finalizer_name ≡ true) (waits : is_waiting job ≡ true)
    (writable : (t : Trace E) (j : TrainingJob) → o.update_job_status t j ≡ ok tt) where
  abbrev run : Result E CtrlResult × Trace E
  run = reconcile lib (tracing o) template_name req []

  none_created :
      (quota : GpuQuota) (peers : List TrainingJob) {wf : Fields} {r : Result E (Unit {0})}
      → ¬ Before (created_unstructured wf r) (
          listed_jobs job.metadata.namespace (ok peers)
          ∷ got_quota (quota_key job) (ok quota)
          ∷ got_job req (ok job)
          ∷ [])
  none_created quota peers (there (there (there b))) = elim b [ ]

  -- A waiting job that has the finalizer and is not being deleted, whose GPUs and those that the
  -- other Running jobs hold are more than the namespace's quota, the sum being below 2 ^ 31: if
  -- the API server takes the status, the run asks to run again after 15 seconds, makes no Create,
  -- whatever its answer, and writes the job as Queued, with the attempts, metadata and spec it
  -- had.
  pub job_over_quota_parks :
      (quota : GpuQuota) (peers : List TrainingJob)
      → ((t : Trace E) → o.get_quota t (quota_key job) ≡ ok quota)
      → ((t : Trace E) → o.list_jobs t job.metadata.namespace ≡ ok peers)
      → total_held job.metadata.name peers + job.spec.gpus < 2 ^ 31
      → IsNonneg32 quota.spec.hard_gpus
      → quota.spec.hard_gpus < total_held job.metadata.name peers + job.spec.gpus
      → (run.0 ≡ ok (record { requeue = false; requeue_after = 15000000000 }))
        × ((wf : Fields) (r : Result E (Unit {0})) → ¬ Before (created_unstructured wf r) run.1)
        × (job' : TrainingJob) × Before (updated_job_status job' (ok tt)) run.1
        × (job'.metadata ≡ job.metadata)
        × (job'.spec ≡ job.spec)
        × (job'.status.phase ≡ queued)
        × (job'.status.attempts ≡ job.status.attempts)
  unfolding reconcile reconcile_job advance quota_gate weigh ◌>>=◌
  job_over_quota_parks quota peers limited listed bounded h more =
      let over = (over_quota_iff peers job.metadata.name job.spec.gpus _ bounded h).1 more in
      rw (read, alive, held, waiting-open job waits, waits, limited _, listed _, over)
        (let before : Trace E =
            listed_jobs job.metadata.namespace (ok peers)
            ∷ got_quota (quota_key job) (ok quota)
            ∷ got_job req (ok job)
            ∷ [] in
          let (adm, r, a, q, b, m, s, p, n, old) =
            park-Before lib o writable job (used_gpus peers job.metadata.name) quota.spec.hard_gpus
              before in
          rw (r, a, q) (refl, λ wf u k. none_created quota peers (old wf u k), _, b, m, s, p, n))
