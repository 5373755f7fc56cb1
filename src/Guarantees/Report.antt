-- ===== src/Guarantees/Report.antt =====
-- The refresh of the quota's status: its calls, on every answer of the API server.
use native.Mathlib.Decide.{ℕ_discrete}
use fyp.Common.{
  ◌%◌, ◌^◌, String, List, ◌∷◌, true, ◌==◌, ◌&&◌, ◌≡◌, refl, ◌∙◌, sym, subst, arith, Bool-cases, inl,
  inr,
}
use fyp.Exec.{Result, ok, err, ◌>>=◌}
use fyp.Api.TrainingJob.{TrainingJob}
use fyp.Api.GpuQuota.{GpuQuota}
use fyp.Quota.{used_gpus, count_queued}
use fyp.Platform.{NamespacedName}
use fyp.Trace.{Trace, Oracle, tracing, got_quota, listed_jobs, updated_quota_status}
use fyp.Controller.Status.{update_quota_status}
use fyp.Guarantees.Usage.{
  total_held, total_queued, used_gpus-eq-total_held, count_queued-eq-total_queued,
}

-- The quota's status shows what the jobs of the list hold and how many of them are queued.
pub record Shows (quota : GpuQuota) (jobs : List TrainingJob) : Type 0 where
  pub used : quota.status.used_gpus ≡ total_held "" jobs % 2 ^ 32
  pub queued_jobs : quota.status.queued_jobs ≡ total_queued jobs % 2 ^ 32

-- The quota with the status that shows it.
abbrev pub showing : GpuQuota → List TrainingJob → GpuQuota
showing quota jobs = record quota {
  status = record {
    used_gpus = total_held "" jobs % 2 ^ 32;
    queued_jobs = total_queued jobs % 2 ^ 32;
  };
}

Shows-dec : (quota : GpuQuota) (jobs : List TrainingJob) → Dec (Shows quota jobs)
Shows-dec quota jobs = elim (ℕ_discrete quota.status.used_gpus (total_held "" jobs % 2 ^ 32)) [
  | no d ↦ no (λ s. d s.used)
  | yes u ↦ elim (ℕ_discrete quota.status.queued_jobs (total_queued jobs % 2 ^ 32)) [
    | no d ↦ no (λ s. d s.queued_jobs)
    | yes q ↦ yes (record { used = u; queued_jobs = q })
  ]
]

module _ {E : Type 0} (o : Oracle E) (namespace : String) (t : Trace E) where
  abbrev key : NamespacedName
  key = record { namespace = namespace; name = "default" }

  abbrev calls : Trace E
  calls = update_quota_status (tracing o) namespace t

  abbrev behind_list : GpuQuota → List TrainingJob → Trace E
  behind_list quota jobs = listed_jobs namespace (ok jobs) ∷ got_quota key (ok quota) ∷ t

  -- The calls of a refresh, by the answers that it gets.
  pub data Refreshed : Trace E → Type 0 where
    unread : {e : E} → o.get_quota t key ≡ err e → Refreshed (got_quota key (err e) ∷ t)
    unlisted :
        {quota : GpuQuota} {e : E}
        → o.get_quota t key ≡ ok quota
        → o.list_jobs (got_quota key (ok quota) ∷ t) namespace ≡ err e
        → Refreshed (listed_jobs namespace (err e) ∷ got_quota key (ok quota) ∷ t)
    current :
        {quota : GpuQuota} {jobs : List TrainingJob}
        → o.get_quota t key ≡ ok quota
        → o.list_jobs (got_quota key (ok quota) ∷ t) namespace ≡ ok jobs
        → Shows quota jobs
        → Refreshed (behind_list quota jobs)
    stale :
        {quota : GpuQuota} {jobs : List TrainingJob}
        → o.get_quota t key ≡ ok quota
        → o.list_jobs (got_quota key (ok quota) ∷ t) namespace ≡ ok jobs
        → ¬ Shows quota jobs
        → Refreshed (
            updated_quota_status
              (showing quota jobs)
              (o.update_quota_status (behind_list quota jobs) (showing quota jobs))
            ∷ behind_list quota jobs)

  unread_calls : (e : E) → o.get_quota t key ≡ err e → calls ≡ got_quota key (err e) ∷ t
  unfolding update_quota_status ◌>>=◌
  unread_calls e got = rw got refl

  unlisted_calls :
      (quota : GpuQuota) (e : E)
      → o.get_quota t key ≡ ok quota
      → o.list_jobs (got_quota key (ok quota) ∷ t) namespace ≡ err e
      → calls ≡ listed_jobs namespace (err e) ∷ got_quota key (ok quota) ∷ t
  unfolding update_quota_status ◌>>=◌
  unlisted_calls quota e got list = rw (got, list) refl

  module _ (quota : GpuQuota) (jobs : List TrainingJob) (got : o.get_quota t key ≡ ok quota)
      (list : o.list_jobs (got_quota key (ok quota) ∷ t) namespace ≡ ok jobs) where
    current_calls : Shows quota jobs → calls ≡ behind_list quota jobs
    unfolding update_quota_status ◌>>=◌
    current_calls s =
        let u = s.used ∙ sym (used_gpus-eq-total_held jobs "") in
        let q = s.queued_jobs ∙ sym (count_queued-eq-total_queued jobs) in
        let same : (quota.status.used_gpus == used_gpus jobs ""
              && quota.status.queued_jobs == count_queued jobs)
            ≡ true =
          ground arith in
        rw (got, list, same) refl

    stale_calls :
        ¬ Shows quota jobs
        → calls
          ≡ updated_quota_status
              (showing quota jobs)
              (o.update_quota_status (behind_list quota jobs) (showing quota jobs))
            ∷ behind_list quota jobs
    unfolding update_quota_status ◌>>=◌
    stale_calls differs =
        let u = used_gpus-eq-total_held jobs "" in
        let q = count_queued-eq-total_queued jobs in
        elim (Bool-cases (
          quota.status.used_gpus == used_gpus jobs ""
          && quota.status.queued_jobs == count_queued jobs)) [
            | inl same ↦
                let used : quota.status.used_gpus ≡ used_gpus jobs "" = ground arith in
                let queued : quota.status.queued_jobs ≡ count_queued jobs = ground arith in
                absurd (differs (record { used = used ∙ u; queued_jobs = queued ∙ q }))
            | inr other ↦ rw (got, list, other, u, q) refl
          ]

  listed_cases :
      (quota : GpuQuota) (r : Result E (List TrainingJob))
      → o.get_quota t key ≡ ok quota
      → o.list_jobs (got_quota key (ok quota) ∷ t) namespace ≡ r
      → Refreshed calls
  listed_cases quota (err e) got list =
      subst Refreshed (sym (unlisted_calls quota e got list)) (unlisted got list)
  listed_cases quota (ok jobs) got list = elim (Shows-dec quota jobs) [
    | yes s ↦ subst Refreshed (sym (current_calls quota jobs got list s)) (current got list s)
    | no d ↦ subst Refreshed (sym (stale_calls quota jobs got list d)) (stale got list d)
  ]

  got_cases : (r : Result E GpuQuota) → o.get_quota t key ≡ r → Refreshed calls
  got_cases (err e) got = subst Refreshed (sym (unread_calls e got)) (unread got)
  got_cases (ok quota) got = listed_cases quota (o.list_jobs _ namespace) got refl

  -- One refresh of the quota's status, on every answer of the API server, with all its calls. It
  -- reads the quota with the name default, and makes no other call if that fails. Otherwise it
  -- lists the jobs of the namespace, and makes no other call if that fails or if the status of the
  -- quota already has the GPUs of the Running jobs with a name and the number of the Queued jobs in
  -- the list, modulo 2 ^ 32. Otherwise it writes these two numbers, the rest of the quota as it was
  -- read, and makes no other call, whatever the answer to the write.
  pub refresh_calls : Refreshed (update_quota_status (tracing o) namespace t)
  refresh_calls = got_cases (o.get_quota t key) refl
