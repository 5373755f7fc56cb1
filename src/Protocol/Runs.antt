-- ===== src/Protocol/Runs.antt =====
-- A whole run of `Reconcile` keeps to the protocol.
use fyp.Common.{
  String, ◌≤◌, true, false, Option, none, some, [], ◌∷◌, ◌≡◌, refl, inl, inr, arith, if◌then◌else◌,
  Bool-cases, ◌||◌,
}
use fyp.Common.Words.{is_positive64}
use fyp.Exec.{Exec, Result, ok, err, ◌>>=◌, ◌>>◌, pure}
use fyp.GoTime
use fyp.Api.TrainingJob.{TrainingJob, Time, is_terminal}
use fyp.WorkflowBuilder.{workflow_gvk}
use fyp.Platform.{Library, NamespacedName}
use fyp.Trace.{Trace, Obeys, silent, call, Oracle, tracing, got_job, deleted_all_of}
use fyp.Lifecycle.{is_waiting_phase, is_live_phase}
use fyp.Protocol.{
  here, Same, Permitted, Admitted, IsClean, started, reads_job, reads_clock, cleans, releases,
  adopts, expires, owned,
}
use fyp.Protocol.Logic.{Keeps, Keeps-pure, Keeps-raise, Keeps-bind, Keeps-try, Keeps-total}
use fyp.Protocol.Gate.{quota_gate-Keeps, quota_gate-Gives}
use fyp.Protocol.Phases.{ensure_workflow-Keeps}
use fyp.Controller.Ttl.{
  return_error, expired, expiry, wait_or_delete, reconcile_ttl, cleaned, delete_owned_workflows,
}
use fyp.Controller.QuotaGate.{Admission}
use fyp.Controller.Workflows.{ensure_workflow}
use fyp.Controller.Reconcile.{finalizer_name, release, adopt, advance, reconcile_job, reconcile}

-- The time left is positive exactly before the deadline.
sub_positive : (t u : Time) → is_positive64 (GoTime.sub t u) ≡ false → t ≤ u
unfolding GoTime.sub
sub_positive t u h = ground arith

module _ {E : Type 0} (lib : Library E) (o : Oracle E) (template_name : String)
    (job : TrainingJob) where
  return_error-Keeps :
      (e : Option E) (t : Trace E)
      → Obeys (Permitted lib job template_name) t
      → Keeps (Permitted lib job template_name) t (return_error e)
  return_error-Keeps none t h = Keeps-pure _ h
  return_error-Keeps (some e) t h = Keeps-raise e h

  expired-Keeps :
      (r : Result E (Unit {0})) (t : Trace E)
      → Obeys (Permitted lib job template_name) t
      → Keeps (Permitted lib job template_name) t (expired lib (tracing o) r)
  unfolding expired
  expired-Keeps (ok x) t h = Keeps-pure _ h
  expired-Keeps (err e) t h = return_error-Keeps _ t h

  wait_or_delete-Keeps :
      (d : Option Time) (t : Trace E)
      → expiry job ≡ d
      → is_terminal job ≡ true
      → Obeys (Permitted lib job template_name) t
      → Keeps (Permitted lib job template_name) t (wait_or_delete lib (tracing o) job d)
  unfolding wait_or_delete
  wait_or_delete-Keeps none t e end h = Keeps-pure _ h
  wait_or_delete-Keeps (some deadline) t e end h =
      let now = o.now t in
      let clocked = call (reads_clock {now = now}) h in
      Keeps-total _ _ (elim (Bool-cases (is_positive64 (GoTime.sub deadline now))) [
        | inl early ↦ rw early (Keeps-pure _ clocked)
        | inr late ↦ rw late (
            Keeps-try _ _ (
              expired-Keeps _ _
                (call (expires deadline now end e here (sub_positive deadline now late)) clocked)))
      ])

  reconcile_ttl-Keeps :
      (t : Trace E)
      → is_terminal job ≡ true
      → Obeys (Permitted lib job template_name) t
      → Keeps (Permitted lib job template_name) t (reconcile_ttl lib (tracing o) job)
  unfolding reconcile_ttl
  reconcile_ttl-Keeps t end h = wait_or_delete-Keeps _ t refl end h

  cleaned-Keeps :
      {B : Type 0} (r : Result E (Unit {0})) (n : Exec (Trace E) E B) (t : Trace E)
      → Obeys (Permitted lib job template_name) t
      → (IsClean lib job r → Keeps (Permitted lib job template_name) t n)
      → Keeps (Permitted lib job template_name) t (cleaned lib (tracing o) r >> n)
  unfolding cleaned ◌>>=◌
  cleaned-Keeps (ok x) n t h k = record { safe = (k tt).safe }
  cleaned-Keeps (err e) n t h k =
      elim (Bool-cases (lib.is_not_found e || lib.is_no_match_error e)) [
        | inl gone ↦ rw gone (record { safe = (k gone).safe })
        | inr failure ↦ rw failure (record { safe = h })
      ]

  delete_owned_workflows-Keeps :
      {B : Type 0} (n : Exec (Trace E) E B) (t : Trace E)
      → lib.is_zero job.metadata.deletion_timestamp ≡ false
      → Obeys (Permitted lib job template_name) t
      → let r = o.delete_all_of t workflow_gvk job.metadata.namespace (owned lib job) in
        let t' = deleted_all_of workflow_gvk job.metadata.namespace (owned lib job) r ∷ t in
        (IsClean lib job r
          → Obeys (Permitted lib job template_name) t'
          → Keeps (Permitted lib job template_name) t' n)
        → Keeps
            (Permitted lib job template_name)
            t
            (delete_owned_workflows lib (tracing o) job >> n)
  unfolding delete_owned_workflows ◌>>=◌
  delete_owned_workflows-Keeps n t deleted h k =
      let h' = call (cleans deleted) h in
      record { safe = (cleaned-Keeps _ n _ h' (λ clean. k clean h')).safe }

  release-Keeps :
      (t : Trace E)
      → lib.is_zero job.metadata.deletion_timestamp ≡ false
      → Obeys (Permitted lib job template_name) t
      → Keeps (Permitted lib job template_name) t (release lib (tracing o) job)
  unfolding release
  release-Keeps t deleted h = elim (Bool-cases (lib.contains_finalizer job finalizer_name)) [
    | inl held ↦ rw held (
        delete_owned_workflows-Keeps _ t deleted h λ clean h'.
          let h'' = call (releases _ deleted here clean) h' in
          Keeps-bind _ _ (record { safe = h'' }) λ _ _. Keeps-pure _ h'')
    | inr released ↦ rw released (Keeps-pure _ h)
  ]

  adopt-Keeps :
      (t : Trace E)
      → lib.is_zero job.metadata.deletion_timestamp ≡ true
      → lib.contains_finalizer job finalizer_name ≡ false
      → Obeys (Permitted lib job template_name) t
      → Keeps (Permitted lib job template_name) t (adopt lib (tracing o) job)
  unfolding adopt
  adopt-Keeps t alive fresh h =
      let h' = call (adopts alive fresh) h in
      Keeps-bind _ _ (record { safe = h' }) λ _ _. Keeps-pure _ h'

  -- The code behind the gate, for the admission that it gave.
  admission-Keeps :
      (a : Admission) (t : Trace E)
      → (a.admitted ≡ true → Same job a.job × Admitted lib job t)
      → is_live_phase job.status.phase ≡ true
      → Obeys (Permitted lib job template_name) t
      → Keeps (Permitted lib job template_name) t (
          if a.admitted then ensure_workflow lib (tracing o) template_name a.job else pure a.result)
  admission-Keeps a t says live h = elim (Bool-cases a.admitted) [
    | inl yes_ ↦
        let (same, admitted) = says yes_ in
        rw yes_ (ensure_workflow-Keeps lib o template_name job same live t admitted h)
    | inr parked ↦ rw parked (Keeps-pure _ h)
  ]

  advance-Keeps :
      (t : Trace E)
      → is_live_phase job.status.phase ≡ true
      → Obeys (Permitted lib job template_name) t
      → Keeps (Permitted lib job template_name) t (advance lib (tracing o) template_name job)
  unfolding advance
  advance-Keeps t live h = elim (Bool-cases (is_waiting_phase job.status.phase)) [
    | inl waiting ↦
        let gate = quota_gate-Keeps lib o template_name job t waiting h in
        rw waiting (
          Keeps-bind _ _ gate λ a e.
            admission-Keeps a _ ((quota_gate-Gives lib o template_name job t).post a e) live
              gate.safe)
    | inr begun ↦
        rw begun (ensure_workflow-Keeps lib o template_name job same_self live t (started begun) h)
  ]
    where
      same_self : Same job job
      same_self = record { metadata = refl; spec = refl; phase = refl; attempts = refl }

  reconcile_job-Keeps :
      (t : Trace E)
      → Obeys (Permitted lib job template_name) t
      → Keeps (Permitted lib job template_name) t (reconcile_job lib (tracing o) template_name job)
  unfolding reconcile_job
  reconcile_job-Keeps t h = elim (Bool-cases (lib.is_zero job.metadata.deletion_timestamp)) [
    | inr deleted ↦ rw deleted (release-Keeps t deleted h)
    | inl alive ↦ elim (Bool-cases (lib.contains_finalizer job finalizer_name)) [
      | inr fresh ↦ rw (alive, fresh) (adopt-Keeps t alive fresh h)
      | inl held ↦ elim (Bool-cases (is_terminal job)) [
        | inl end ↦ rw (alive, held, end) (reconcile_ttl-Keeps t end h)
        | inr open_ ↦ rw (alive, held, open_) (advance-Keeps t (live_of_open open_) h)
      ]
    ]
  ]
    where
      live_of_open : is_terminal job ≡ false → is_live_phase job.status.phase ≡ true
      live_of_open e = ground arith

  -- In every environment, each call of a run that reads the job is one that `Permitted` allows
  -- after the calls before it: a finalizer goes only after a clean DeleteAllOf, a job is deleted
  -- only past its time to live, a Workflow is created only behind the quota gate and where it was
  -- found missing, and deleted only where it was read as failed with a retry left, and each status
  -- that is written follows an edge of the state machine on grounds that were read. Reads, the
  -- clock and events are free.
  pub reconcile-Obeys :
      (req : NamespacedName)
      → o.get_job [] req ≡ ok job
      → Obeys (Permitted lib job template_name) (reconcile lib (tracing o) template_name req []).1
  unfolding reconcile
  reconcile-Obeys req e =
      (Keeps-try {t = []} _ _
        (rw e (reconcile_job-Keeps (got_job req (ok job) ∷ []) (call reads_job silent)))).safe
