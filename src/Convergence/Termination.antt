-- ===== src/Convergence/Termination.antt =====
-- Runs of `Reconcile`, each on the job that the one before it left, until the job has ended.
use fyp.Common.{
  String, ℕ, zero, suc, ◌+◌, ◌*◌, ◌-◌, ◌^◌, ◌≤◌, ◌<◌, Bool, true, List, [], ◌≡◌, refl, ap, ap₂, sym,
  ◌∙◌, subst, inl, inr, Bool-cases, arith,
}
use fyp.Exec.{Result, ok}
use fyp.Api.TrainingJob.{TrainingJob, is_terminal, unset, queued, running}
use fyp.Api.GpuQuota.{GpuQuota}
use fyp.WorkflowBuilder.{Fields, workflow_gvk, build_workflow}
use fyp.Platform.{Library, NamespacedName}
use fyp.Trace.{Trace, Oracle, tracing}
use fyp.Lifecycle.{Stage, stage_of, is_waiting_phase, is_live_phase}
use fyp.Lifecycle.Bounds.{fresh}
use fyp.Protocol.{attempt_key, quota_key}
use fyp.Controller.Workflows.{next_attempt}
use fyp.Controller.Reconcile.{finalizer_name, reconcile}
use fyp.Convergence.{next}
use fyp.Convergence.Stored.{stored}
use fyp.Convergence.Attempt.{Finds, limit}
use fyp.Convergence.Refinement.{HasRoom, reconcile-refines}
use fyp.Convergence.Ends.{
  ended, end, is_end, end-is_end, start_step, win_step, retry_step, fail_step, shown, rounds,
  rounds-mul, wait_step,
}

module _ {E : Type 0} (lib : Library E) (template_name : String) (req : NamespacedName)
    (world : ℕ → TrainingJob → Oracle E) (job : TrainingJob) where
  -- The job that the first `n` runs have left.
  abbrev pub after_runs : ℕ → TrainingJob
  after_runs zero = job
  after_runs (suc n) =
      let last = after_runs n in
      stored last (reconcile lib (tracing (world n last)) template_name req []).1

  record Reached (n : ℕ) (s : Stage) : Type 0 where
    metadata : (after_runs n).metadata ≡ job.metadata
    spec : (after_runs n).spec ≡ job.spec
    stage : stage_of (after_runs n) ≡ s

  module _ (read : (n : ℕ) (j : TrainingJob) → (world n j).get_job [] req ≡ ok j)
      (alive : lib.is_zero job.metadata.deletion_timestamp ≡ true)
      (held : (j : TrainingJob)
        → j.metadata ≡ job.metadata
        → lib.contains_finalizer j finalizer_name ≡ true)
      (writable : (n : ℕ) (j : TrainingJob) (t : Trace E) (j' : TrainingJob)
        → (world n j).update_job_status t j' ≡ ok tt)
      (deletable : (n : ℕ) (j : TrainingJob) (t : Trace E) (wf : Fields)
        → (world n j).delete_unstructured t wf ≡ ok tt)
      (creatable : (n : ℕ) (j : TrainingJob) (t : Trace E) (wf : Fields)
        → (world n j).create_unstructured t wf ≡ ok tt)
      (owned : Fields → Fields)
      (ownable : (j : TrainingJob) (wf : Fields)
        → j.metadata ≡ job.metadata
        → lib.set_controller_reference j wf ≡ ok (owned wf))
      (quota : ℕ → TrainingJob → Result E GpuQuota) (peers : ℕ → TrainingJob → List TrainingJob)
      (limits : (n : ℕ) (j : TrainingJob) (t : Trace E)
        → (world n j).get_quota t (quota_key j) ≡ quota n j)
      (listed : (n : ℕ) (j : TrainingJob) (t : Trace E)
        → (world n j).list_jobs t j.metadata.namespace ≡ ok (peers n j))
      (room over : ℕ → Bool)
      (has : (n : ℕ) (j : TrainingJob)
        → j.spec ≡ job.spec
        → HasRoom lib j (peers n j) (quota n j) (room n))
      (wins : ℕ → Bool) (answer : ℕ → TrainingJob → Result E Fields)
      (got : (n : ℕ) (j : TrainingJob) (t : Trace E)
        → (world n j).get_unstructured t workflow_gvk (attempt_key j) ≡ answer n j)
      (finds : (n : ℕ) (j : TrainingJob)
        → Finds lib (answer n j) (shown wins (over n) (stage_of j))) where
    run_step :
        (n : ℕ) (s : Stage)
        → is_live_phase s.phase ≡ true
        → Reached n s
        → Reached (suc n) (next (limit job) s (room n) (shown wins (over n) s))
    run_step n s live r =
        let last = after_runs n in
        let o = world n last in
        let left =
          reconcile-refines lib o template_name req last (read n last) (rw r.metadata alive)
            (held last r.metadata) (ap (λ s. is_live_phase s.phase) r.stage ∙ live)
            (writable n last) (deletable n last) (creatable n last)
            (owned (build_workflow last (next_attempt last).0 template_name))
            (λ j e. ownable j _ (e ∙ r.metadata)) (answer n last)
            (shown wins (over n) (stage_of last)) (got n last) (finds n last) (quota n last)
            (peers n last) (room n) (limits n last) (listed n last) (has n last r.spec) in
        record {
          metadata = left.stands.metadata ∙ r.metadata;
          spec = left.stands.spec ∙ r.spec;
          stage =
              left.stands.stage
              ∙ ap₂ (λ p s. next p.retry.backoff_limit s (room n) (shown wins (over n) s)) r.spec
                  r.stage;
        }

    -- The rounds until there is room, and until the Workflow has ended.
    until_room :
        (gap n m a : ℕ) (s : Stage)
        → m ≡ n + gap
        → room m ≡ true
        → is_waiting_phase s.phase ≡ true
        → s.attempts ≡ a
        → Reached n s
        → (k : ℕ) × (k ≤ m)
          × (room k ≡ true)
          × (s' : Stage) × (is_waiting_phase s'.phase ≡ true)
          × (s'.attempts ≡ a)
          × Reached k s'
    until_room zero n m a s e holds w c r =
        let same : m ≡ n = omega arith in (n, omega arith, ap room (sym same) ∙ holds, s, w, c, r)
    until_room (suc gap) n m a s e holds w c r = elim (Bool-cases (room n)) [
      | inl now ↦ (n, omega arith, now, s, w, c, r)
      | inr full ↦
          let live : is_live_phase s.phase ≡ true = rw w refl in
          let parked =
            subst (Reached (suc n))
              (ap (λ b. next (limit job) s b (shown wins (over n) s)) full
                ∙ wait_step wins (over n) (limit job) s w)
              (run_step n s live r) in
          until_room gap (suc n) m a (record s { phase = queued }) (omega arith) holds refl c parked
    ]

    until_over :
        (gap n m a : ℕ)
        → m ≡ n + gap
        → over m ≡ true
        → Reached n (record { phase = running; attempts = a })
        → (k : ℕ) × (k ≤ m) × (over k ≡ true) × Reached k (record { phase = running; attempts = a })
    until_over zero n m a e holds r =
        let same : m ≡ n = omega arith in (n, omega arith, ap over (sym same) ∙ holds, r)
    until_over (suc gap) n m a e holds r = elim (Bool-cases (over n)) [
      | inl now ↦ (n, omega arith, now, r)
      | inr busy ↦
          let idle =
            subst (Reached (suc n))
              (ap
                (λ b.
                  next (limit job) (record { phase = running; attempts = a }) (room n)
                    (shown wins b (record { phase = running; attempts = a })))
                busy)
              (run_step n _ refl r) in
          until_over gap (suc n) m a (omega arith) holds idle
    ]

    module _ (d : ℕ) (rooms : (n : ℕ) → (m : ℕ) × (n ≤ m) × (m < n + d) × (room m ≡ true))
        (overs : (n : ℕ) → (m : ℕ) × (n ≤ m) × (m < n + d) × (over m ≡ true))
        (small : limit job < 2 ^ 31 - 1) where
      -- One attempt of a waiting job that has made `a` of them.
      attempt :
          (n a : ℕ) (s : Stage)
          → is_waiting_phase s.phase ≡ true
          → s.attempts ≡ a
          → a ≤ limit job
          → Reached n s
          → (k : ℕ) × (k ≤ n + (d + d)) × (b : Bool) × Reached k (ended wins b (limit job) (a + 1))
      attempt n a s w c le r =
          let (m, from, under, holds) = rooms n in
          let (k, up, now, s', w', c', r') = until_room (m - n) n m a s (omega arith) holds w c r in
          let live : is_live_phase s'.phase ≡ true = rw w' refl in
          let begun =
            subst (Reached (suc k))
              (ap (λ b. next (limit job) s' b (shown wins (over k) s')) now
                ∙ start_step wins (over k) (limit job) s' w' (omega (arith, c', small))
                ∙ rw c' refl)
              (run_step k s' live r') in
          let (m₂, from₂, under₂, holds₂) = overs (suc k) in
          let (k₂, up₂, now₂, r₂) =
            until_over (m₂ - suc k) (suc k) m₂ (a + 1) (omega arith) holds₂ begun in
          (
            suc k₂,
            omega arith,
            room k₂,
            subst (Reached (suc k₂))
                (ap
                  (λ b.
                    next (limit job) (record { phase = running; attempts = a + 1 }) (room k₂)
                      (shown wins b (record { phase = running; attempts = a + 1 })))
                  now₂)
                (run_step k₂ _ refl r₂),
          )

      ends_from :
          (left n a : ℕ) (s : Stage)
          → is_waiting_phase s.phase ≡ true
          → s.attempts ≡ a
          → left + a ≡ limit job
          → Reached n s
          → (k : ℕ) × (k ≤ n + rounds d left) × Reached k (end wins left (a + 1))
      ends_from zero n a s w c sum r =
          let (k, le, b, ran) = attempt n a s w c (omega arith) r in
          elim (Bool-cases (wins (a + 1))) [
            | inl win ↦ (
              k,
              le,
              subst (Reached k) (win_step wins b (limit job) (a + 1) win ∙ rw win refl) ran,
            )
            | inr lose ↦ (
              k,
              le,
              subst (Reached k)
                  (fail_step wins b (limit job) (a + 1) lose (omega arith) small ∙ rw lose refl)
                  ran,
            )
          ]
      ends_from (suc left) n a s w c sum r =
          let (k, le, b, ran) = attempt n a s w c (omega arith) r in
          elim (Bool-cases (wins (a + 1))) [
            | inl win ↦ (
              k,
              omega arith,
              subst (Reached k) (win_step wins b (limit job) (a + 1) win ∙ rw win refl) ran,
            )
            | inr lose ↦
                let again =
                  subst (Reached k) (retry_step wins b (limit job) (a + 1) lose (omega arith) small)
                    ran in
                let (k', le', over) = ends_from left k (a + 1) _ refl refl (omega arith) again in
                (k', omega arith, rw lose over)
          ]

      -- A new job with a backoff limit below 2147483647, which has the finalizer and is not being
      -- deleted. `Reconcile` runs again and again, each time on the job that the run before has left;
      -- at each run the API server takes every write, the owner reference can be set, there is no
      -- Workflow for a waiting job's next attempt, and that of a Running job's attempt `a` goes on or
      -- has ended, with success exactly if `wins a`. Of every `d` runs in a row, at least one finds
      -- room for the job in the quota, and at least one finds that the Workflow has ended. Then after
      -- at most 2 * d * (backoffLimit + 1) runs the job is terminal: Succeeded with the first attempt
      -- that wins, or else Failed with backoffLimit + 1 attempts.
      pub every_job_ends :
          job.status.phase ≡ unset
          → job.status.attempts ≡ 0
          → (k : ℕ) × (k ≤ 2 * d * suc (limit job))
            × (stage_of (after_runs k) ≡ end wins (limit job) 1)
            × (is_terminal (after_runs k) ≡ true)
      every_job_ends p z =
          let (k, le, r) = ends_from (limit job) 0 0 fresh refl refl (omega arith) (record {
            metadata = refl;
            spec = refl;
            stage = ap₂ (λ x y. record { phase = x; attempts = y }) p z;
          }) in
          (
            k,
            omega (arith, le, rounds-mul d (limit job)),
            r.stage,
            ap is_end r.stage ∙ end-is_end wins (limit job) 1,
          )
