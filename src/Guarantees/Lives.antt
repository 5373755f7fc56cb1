-- ===== src/Guarantees/Lives.antt =====
-- The life of a job over any number of runs of `Reconcile`.
use fyp.Common.{String, ◌-◌, ◌^◌, ◌<◌, [], ◌≡◌}
use fyp.Exec.{Result, ok}
use fyp.Api.TrainingJob.{TrainingJob, unset}
use fyp.Platform.{Library, NamespacedName}
use fyp.Trace.{Call, Trace, Rule, Obeys, call, Oracle, tracing, updated_job_status}
use fyp.Lifecycle.{stage_of}
use fyp.Lifecycle.Bounds.{WithinBackoff, fresh-WithinBackoff, Edge-WithinBackoff}
use fyp.Protocol.{Before, here, there, Follows, Permitted, writes}
use fyp.Protocol.Runs.{reconcile-Obeys}
use fyp.Controller.Reconcile.{reconcile}

-- A call in an obedient trace obeys the rule, after a part of the trace.
pub Before-rule :
    {E : Type 0} {J : Rule E} {c : Call E} {t : Trace E}
    → Before c t
    → Obeys J t
    → (t' : Trace E) × J c t' × ((d : Call E) → Before d t' → Before d t)
Before-rule here (call {t = t'} j h) = (t', j, λ d b. there b)
Before-rule (there b) (call j h) =
    let (t', j', up) = Before-rule b h in (t', j', λ d k. there (up d k))

module _ {E : Type 0} (lib : Library E) (template_name : String) where
  -- The runs of one job. A run may read any state that was written before it; its environment is any
  -- oracle. Between two runs, and by the writes of the finalizer, the metadata may change.
  pub data Lived : TrainingJob → Type 0 where
    born : (job : TrainingJob) → job.status.phase ≡ unset → job.status.attempts ≡ 0 → Lived job
    edited :
        {job : TrainingJob} (job' : TrainingJob)
        → Lived job
        → job'.spec ≡ job.spec
        → job'.status ≡ job.status
        → Lived job'
    run :
        {job : TrainingJob} (job' : TrainingJob) (o : Oracle E) (req : NamespacedName)
        → Lived job
        → o.get_job [] req ≡ ok job
        → Before
            (updated_job_status job' (ok tt))
            (reconcile lib (tracing o) template_name req []).1
        → Lived job'

  Permitted-Follows :
      {job job' : TrainingJob} {r : Result E (Unit {0})} {t : Trace E}
      → Permitted lib job template_name (updated_job_status job' r) t
      → Follows job job'
  Permitted-Follows (writes job' f g) = f

  -- A status that a run writes follows an edge of the state machine from the status that it read,
  -- and the written object has the metadata and the spec of the job that it read.
  pub run-Follows :
      (o : Oracle E) (req : NamespacedName) (job job' : TrainingJob) (r : Result E (Unit {0}))
      → o.get_job [] req ≡ ok job
      → Before (updated_job_status job' r) (reconcile lib (tracing o) template_name req []).1
      → Follows job job'
  run-Follows o req job job' r e b =
      Permitted-Follows (Before-rule b (reconcile-Obeys lib o template_name job req e)).1

  -- In every environment, after any number of runs, each on a state written before: a job has made
  -- at most backoffLimit + 1 attempts, one that waits for an attempt at most backoffLimit, and a
  -- Failed job exactly backoffLimit + 1. The backoff limit is below 2 ^ 31 - 1, and the spec is
  -- never edited.
  pub Lived-WithinBackoff :
      {job : TrainingJob}
      → Lived job
      → job.spec.retry.backoff_limit < 2 ^ 31 - 1
      → WithinBackoff job.spec.retry.backoff_limit (stage_of job)
  Lived-WithinBackoff (born job p a) small = rw (p, a) (fresh-WithinBackoff _)
  Lived-WithinBackoff (edited job' l s t) small = rw (s, t) (Lived-WithinBackoff l (rw s at small))
  Lived-WithinBackoff (run {job} job' o req l e b) small =
      let f = run-Follows o req job job' (ok tt) e b in
      rw f.spec (
        Edge-WithinBackoff (rw f.spec at small) f.edge (Lived-WithinBackoff l (rw f.spec at small)))
