-- ===== src/Guarantees/Deletions.antt =====
-- The finalizer, the end of the time to live, and the rest of a terminal job.
use fyp.Common.{String, ℕ, [], true, false, ◌≡◌, refl, arith}
use fyp.Exec.{Result, ok}
use fyp.Api.TrainingJob.{TrainingJob, is_terminal}
use fyp.WorkflowBuilder.{Fields, workflow_gvk}
use fyp.Platform.{Library, NamespacedName}
use fyp.Trace.{
  Call, Trace, Oracle, tracing, updated_job, deleted_all_of, updated_job_status,
  created_unstructured, deleted_unstructured,
}
use fyp.Lifecycle.{Edge, Stage, is_live_phase, park, start, restart, keep, succeed, retry, give_up}
use fyp.Protocol.{Before, Permitted, IsClean, owned, adopts, releases, writes, submits, withdraws}
use fyp.Protocol.Runs.{reconcile-Obeys}
use fyp.Guarantees.Lives.{Before-rule}
use fyp.Controller.Reconcile.{finalizer_name, reconcile}

-- The calls that move a job or its Workflows.
pub data Moves {E : Type 0} : Call E → Type 0 where
  writes_status : (j : TrainingJob) (r : Result E (Unit {0})) → Moves (updated_job_status j r)
  creates : (wf : Fields) (r : Result E (Unit {0})) → Moves (created_unstructured wf r)
  deletes : (wf : Fields) (r : Result E (Unit {0})) → Moves (deleted_unstructured wf r)

pub Edge-live : {limit : ℕ} {s t : Stage} → Edge limit s t → is_live_phase s.phase ≡ true
Edge-live (park w e) = ground arith
Edge-live (start w e) = ground arith
Edge-live (restart p z e) = ground arith
Edge-live (keep l e) = l
Edge-live (succeed l e) = l
Edge-live (retry l b e) = l
Edge-live (give_up l b e) = l

live-not-terminal :
    (job : TrainingJob) → is_terminal job ≡ true → is_live_phase job.status.phase ≡ true → ⊥
live-not-terminal job e l = ground arith

module _ {E : Type 0} (lib : Library E) (o : Oracle E) (template_name : String)
    (req : NamespacedName) (job : TrainingJob) (read : o.get_job [] req ≡ ok job) where
  abbrev calls : Trace E
  calls = (reconcile lib (tracing o) template_name req []).1

  permitted :
      {c : Call E}
      → Before c calls
      → (t : Trace E) × Permitted lib job template_name c t
        × ((d : Call E) → Before d t → Before d calls)
  permitted b = Before-rule b (reconcile-Obeys lib o template_name job req read)

  -- The object that is written is the job with the finalizer, and it is alive and had none; or the
  -- job without the finalizer, and it is being deleted and its Workflows were cleaned up before.
  pub data FinalizerWrite (j : TrainingJob) : Type 0 where
    added :
        lib.is_zero job.metadata.deletion_timestamp ≡ true
        → lib.contains_finalizer job finalizer_name ≡ false
        → j ≡ lib.add_finalizer job finalizer_name
        → FinalizerWrite j
    removed :
        (s : Result E (Unit {0}))
        → lib.is_zero job.metadata.deletion_timestamp ≡ false
        → Before (deleted_all_of workflow_gvk job.metadata.namespace (owned lib job) s) calls
        → IsClean lib job s
        → j ≡ lib.remove_finalizer job finalizer_name
        → FinalizerWrite j

  finalizer_write :
      {j : TrainingJob} {r : Result E (Unit {0})} {t : Trace E}
      → Permitted lib job template_name (updated_job j r) t
      → ((d : Call E) → Before d t → Before d calls)
      → FinalizerWrite j
  finalizer_write (adopts alive new) up = added alive new refl
  finalizer_write (releases s deleted b clean) up = removed s deleted (up _ b) clean refl

  -- A run updates the job itself only for the finalizer: it adds it to a job that is not being
  -- deleted and has none, and removes it from a job that is being deleted, after a DeleteAllOf of
  -- the job's Workflows that succeeded or was answered NotFound or NoMatch.
  pub update_is_finalizer :
      (j : TrainingJob) (r : Result E (Unit {0}))
      → Before (updated_job j r) calls
      → FinalizerWrite j
  update_is_finalizer j r b = let (t, p, up) = permitted b in finalizer_write p up

  moving-live :
      {c : Call E} {t : Trace E}
      → Moves c
      → Permitted lib job template_name c t
      → is_live_phase job.status.phase ≡ true
  moving-live (writes_status j r) (writes j' f g) = Edge-live f.edge
  moving-live (creates wf r) (submits owner wf' e live a b gone same built) = live
  moving-live (deletes wf r) (withdraws wf' live seen left) = live

  -- A terminal job rests: a run that reads it writes no status, and creates and deletes no Workflow.
  pub terminal_rests : is_terminal job ≡ true → (c : Call E) → Before c calls → ¬ Moves c
  terminal_rests end c b m =
      let (t, p, up) = permitted b in live-not-terminal job end (moving-live m p)
