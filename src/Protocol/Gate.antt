-- ===== src/Protocol/Gate.antt =====
-- The quota gate and the quota's status keep to the protocol.
use fyp.Common.{
  String, List, true, false, ◌≡◌, refl, sym, ap, inl, inr, arith, Bool-cases, ◌==◌, ◌&&◌,
}
use fyp.Common.Words.{Int32}
use fyp.Exec.{Result, ok, err, ◌>>=◌, ◌>>◌, pure, effect}
use fyp.Api.TrainingJob.{TrainingJob, queued, ◌==ᵖ◌}
use fyp.Api.GpuQuota.{GpuQuota}
use fyp.Quota.{used_gpus, count_queued}
use fyp.Platform.{Library}
use fyp.Trace.{Trace, Obeys, call, Oracle, tracing, got_quota, listed_jobs}
use fyp.Lifecycle.{is_waiting_phase}
use fyp.Protocol.{
  Before, here, there, Same, Follows, Permitted, Measured, Admitted, Grounds, quota_key, measured,
  unlimited, within, parked, reads_quota, lists, records, writes, reports,
}
use fyp.Protocol.Logic.{
  Keeps, Keeps-pure, Keeps-raise, Keeps-if, Keeps-bind, Keeps-try, Keeps-effect, Measured-there,
  queued-Follows, Gives, Gives-bind, Gives-try, Before-latest,
}
use fyp.Controller.Status.{update_quota_status, list_for_usage, report_usage}
use fyp.Controller.QuotaGate.{
  Admission, over_quota, quota_gate, measure, weigh, park as park_job, admit,
}

module _ {E : Type 0} (lib : Library E) (o : Oracle E) (template_name : String)
    (job : TrainingJob) where
  report_usage-Obeys :
      (quota : GpuQuota) (r : Result E (List TrainingJob)) (t : Trace E)
      → Obeys (Permitted lib job template_name) t
      → Before (got_quota (quota_key job) (ok quota)) t
      → Before (listed_jobs job.metadata.namespace r) t
      → Obeys (Permitted lib job template_name) (report_usage (tracing o) quota r t)
  unfolding report_usage
  report_usage-Obeys quota (err e) t h got listed = h
  report_usage-Obeys quota (ok jobs) t h got listed =
      elim (Bool-cases (
        quota.status.used_gpus == used_gpus jobs ""
        && quota.status.queued_jobs == count_queued jobs)) [
          | inl current ↦ rw current h
          | inr stale ↦ rw stale (call (reports quota jobs got listed) h)
        ]

  list_for_usage-Obeys :
      (r : Result E GpuQuota) (t : Trace E)
      → Obeys (Permitted lib job template_name) t
      → Before (got_quota (quota_key job) r) t
      → Obeys
          (Permitted lib job template_name)
          (list_for_usage (tracing o) job.metadata.namespace r t)
  unfolding list_for_usage
  list_for_usage-Obeys (err e) t h got = h
  list_for_usage-Obeys (ok quota) t h got =
      report_usage-Obeys quota _ _ (call lists h) (there got) here

  pub update_quota_status-Obeys :
      (t : Trace E)
      → Obeys (Permitted lib job template_name) t
      → Obeys
          (Permitted lib job template_name)
          (update_quota_status (tracing o) job.metadata.namespace t)
  unfolding update_quota_status
  update_quota_status-Obeys t h = list_for_usage-Obeys _ _ (call reads_quota h) here

  -- The write of a status with the report of the usage behind it.
  pub write-Keeps :
      {A : Type 0} (job' : TrainingJob) {ns : String} (a : A) (t : Trace E)
      → ns ≡ job.metadata.namespace
      → Follows job job'
      → Grounds lib job job' t
      → Obeys (Permitted lib job template_name) t
      → Keeps (Permitted lib job template_name) t (
          (tracing o).update_job_status job'
          >> (effect (update_quota_status (tracing o) ns) >> pure a))
  write-Keeps job' a t same f g h = rw same (
      Keeps-bind _ _ (record { safe = call (writes job' f g) h })
        λ _ _.
          Keeps-effect _ _ (Keeps-pure _ (update_quota_status-Obeys _ (call (writes job' f g) h))))

  park_job-Keeps :
      (used hard : Int32) (t : Trace E)
      → is_waiting_phase job.status.phase ≡ true
      → Obeys (Permitted lib job template_name) t
      → Measured lib job true t
      → Keeps (Permitted lib job template_name) t (park_job lib (tracing o) job used hard)
  unfolding park_job
  park_job-Keeps used hard t w h m =
      Keeps-effect _ _ (elim (Bool-cases (job.status.phase ==ᵖ queued)) [
        | inl again ↦ rw again (write-Keeps _ _ _ refl (queued-Follows w _) (parked m refl) h)
        | inr new ↦ rw new (
            write-Keeps _ _ _ refl (queued-Follows w _) (parked (Measured-there m) refl)
              (call records h))
      ])

  weigh-Keeps :
      (quota : GpuQuota) (peers : List TrainingJob) (t : Trace E)
      → is_waiting_phase job.status.phase ≡ true
      → Obeys (Permitted lib job template_name) t
      → Before (got_quota (quota_key job) (ok quota)) t
      → Before (listed_jobs job.metadata.namespace (ok peers)) t
      → Keeps (Permitted lib job template_name) t (weigh lib (tracing o) job quota peers)
  unfolding weigh admit
  weigh-Keeps quota peers t w h b l =
      search (Keeps-if, Keeps-pure, park_job-Keeps, measured) depth 8

  measure-Keeps :
      (r : Result E GpuQuota) (t : Trace E)
      → is_waiting_phase job.status.phase ≡ true
      → Obeys (Permitted lib job template_name) t
      → Before (got_quota (quota_key job) r) t
      → Keeps (Permitted lib job template_name) t (measure lib (tracing o) job r)
  unfolding measure
  measure-Keeps (err e) t w h b = search (Keeps-if, Keeps-pure, Keeps-raise)
  measure-Keeps (ok quota) t w h b =
      Keeps-bind _ _ (record { safe = call lists h })
        λ peers e.
          weigh-Keeps quota peers _ w (call lists h) (there b)
            (Before-latest (ap (listed_jobs job.metadata.namespace) (sym e)))

  pub quota_gate-Keeps :
      (t : Trace E)
      → is_waiting_phase job.status.phase ≡ true
      → Obeys (Permitted lib job template_name) t
      → Keeps (Permitted lib job template_name) t (quota_gate lib (tracing o) job)
  unfolding quota_gate
  quota_gate-Keeps t w h = Keeps-try _ _ (measure-Keeps _ _ w (call reads_quota h) here)

  park_job-waits :
      (used hard : Int32) (t : Trace E) (a : Admission)
      → (park_job lib (tracing o) job used hard t).0 ≡ ok a
      → a.admitted ≡ false
  unfolding park_job ◌>>=◌
  park_job-waits used hard t a e = ground arith

  -- What an admission says: the job is as before but for its conditions, and the quota allows it.
  abbrev AdmitsJob : Admission → Trace E → Type 0
  AdmitsJob a t = a.admitted ≡ true → Same job a.job × Admitted lib job t

  weigh-Gives :
      (quota : GpuQuota) (peers : List TrainingJob) (t : Trace E)
      → Before (got_quota (quota_key job) (ok quota)) t
      → Before (listed_jobs job.metadata.namespace (ok peers)) t
      → Gives t (weigh lib (tracing o) job quota peers) AdmitsJob
  unfolding weigh admit ◌>>=◌
  weigh-Gives quota peers t b l =
      let used = used_gpus peers job.metadata.name in
      elim (Bool-cases (over_quota used job.spec.gpus quota.spec.hard_gpus)) [
        | inl over ↦ rw over (record {
          post = λ a p q. absurd (ground (arith, park_job-waits used quota.spec.hard_gpus t a));
        })
        | inr fits ↦
            rw fits
              (record { post = λ a p q. (ground arith, within (measured quota peers b l fits)) })
      ]

  measure-Gives :
      (r : Result E GpuQuota) (t : Trace E)
      → Before (got_quota (quota_key job) r) t
      → Gives t (measure lib (tracing o) job r) AdmitsJob
  unfolding measure ◌>>=◌
  measure-Gives (err e) t b = elim (Bool-cases (lib.is_not_found e)) [
    | inl gone ↦ rw gone (record { post = λ a p q. (ground arith, unlimited e b gone) })
    | inr failure ↦ rw failure (record { post = λ a p q. cc })
  ]
  measure-Gives (ok quota) t b = Gives-bind _ _ λ peers e.
      weigh-Gives quota peers _ (there b)
        (Before-latest (ap (listed_jobs job.metadata.namespace) (sym e)))

  pub quota_gate-Gives : (t : Trace E) → Gives t (quota_gate lib (tracing o) job) AdmitsJob
  unfolding quota_gate
  quota_gate-Gives t = Gives-try _ _ (measure-Gives _ _ here)
