-- ===== src/Guarantees/Retries.antt =====
-- What a run does to Workflows and to the attempts: new attempts, retries and terminal phases.
use Prim.Native.String.{◌++◌}
use fyp.Common.{String, [], true, false, ◌≡◌, ◌≢◌, ◌⊎◌, arith, eq_iff}
use fyp.Common.Words.{Int32, le32}
use fyp.Exec.{Result, ok}
use fyp.Api.TrainingJob.{TrainingJob, succeeded, failed, running}
use fyp.WorkflowBuilder.{Fields, workflow_gvk, model_uri, s3_path, build_workflow}
use fyp.WorkflowBuilder.Params.{upload_prefix}
use fyp.WorkflowStatus.{map_workflow_phase}
use fyp.Platform.{Library, NamespacedName}
use fyp.Trace.{
  Call, Trace, Oracle, tracing, updated_job_status, created_unstructured, deleted_unstructured,
  got_unstructured,
}
use fyp.Lifecycle.{Stage, Edge, park, start, restart, keep, succeed, retry, give_up}
use fyp.Protocol.{
  Before, Same, Permitted, writes, submits, withdraws, observed, parked, submitted, followed,
  completed, retried, gave_up, attempt_key,
}
use fyp.Protocol.Runs.{reconcile-Obeys}
use fyp.Guarantees.Lives.{Before-rule}
use fyp.Controller.Workflows.{workflow_phase, next_attempt}
use fyp.Controller.Reconcile.{reconcile}

-- The Argo phases of the answer (failed, true).
pub failed_phases :
    (p : String) → map_workflow_phase p ≡ (failed, true) → (p ≡ "Failed") ⊎ (p ≡ "Error")
unfolding map_workflow_phase
failed_phases p h = ground (arith, eq_iff p "Failed", eq_iff p "Error")

pub succeeded_phases : (p : String) → map_workflow_phase p ≡ (succeeded, true) → p ≡ "Succeeded"
unfolding map_workflow_phase
succeeded_phases p h = ground (arith, eq_iff p "Succeeded")

-- Only the edges into Running change the attempts.
Edge-attempts :
    {limit : Int32} {s t : Stage} → Edge limit s t → t.phase ≢ running → t.attempts ≡ s.attempts
Edge-attempts (park w e) n = ground arith
Edge-attempts (start w e) n = ground arith
Edge-attempts (restart p z e) n = ground arith
Edge-attempts (keep l e) n = ground arith
Edge-attempts (succeed l e) n = ground arith
Edge-attempts (retry l b e) n = ground arith
Edge-attempts (give_up l b e) n = ground arith

module _ {E : Type 0} (lib : Library E) (template_name : String) (job : TrainingJob) where
  -- The Workflow of the attempt that is written was created in the trace, by an answered Create.
  pub record IsSubmitted (job' : TrainingJob) (t : Trace E) : Type 0 where
    pub wf : Fields
    pub owner : TrainingJob
    pub same : Same job owner
    pub built :
        lib.set_controller_reference owner (build_workflow owner job'.status.attempts template_name)
        ≡ ok wf
    pub created : Before (created_unstructured wf (ok tt)) t

  -- The Workflow of the attempt was read in the trace, with an Argo phase of which this holds.
  pub record HasRead (P : String → Type 0) (wf : Fields) (t : Trace E) : Type 0 where
    pub got : Before (got_unstructured workflow_gvk (attempt_key job) (ok wf)) t
    pub phase : P (workflow_phase lib wf)

abbrev pub IsFailure : String → Type 0
IsFailure p = (p ≡ "Failed") ⊎ (p ≡ "Error")

module _ {E : Type 0} (lib : Library E) (o : Oracle E) (template_name : String)
    (req : NamespacedName) (job : TrainingJob) (read : o.get_job [] req ≡ ok job) where
  abbrev calls : Trace E
  calls = (reconcile lib (tracing o) template_name req []).1

  permitted :
      {c : Call E}
      → Before c calls
      → (t : Trace E) × Permitted lib job template_name c t
        × ((d : Call E) → Before d t → Before d calls)
  permitted b = Before-rule b (reconcile-Obeys lib o template_name job req read)

  created_call :
      {wf : Fields} {r : Result E (Unit {0})} {t : Trace E}
      → Permitted lib job template_name (created_unstructured wf r) t
      → (owner : TrainingJob) × Same job owner
        × (lib.set_controller_reference owner
              (build_workflow owner (next_attempt job).0 template_name)
            ≡ ok wf)
  created_call (submits owner wf e live a b gone same built) = (owner, same, built)

  submission :
      {job' : TrainingJob} {r : Result E (Unit {0})} {t : Trace E}
      → Permitted lib job template_name (updated_job_status job' r) t
      → ((d : Call E) → Before d t → Before d calls)
      → job'.status.attempts ≢ job.status.attempts
      → IsSubmitted lib template_name job job' calls
  submission (writes job' f (parked m p)) up changed =
      absurd (changed (Edge-attempts f.edge (λ q. cc)))
  submission (writes job' f (submitted wf b p a n)) up changed =
      let (t', j, _) = permitted (up _ b) in
      let (owner, same, built) = created_call j in
      record { wf = wf; owner = owner; same = same; built = rw a built; created = up _ b }
  submission (writes job' f (followed wf adm seen p a n)) up changed = absurd (changed a)
  submission (writes job' f (completed wf now seen c p d m)) up changed =
      absurd (changed (Edge-attempts f.edge (λ q. cc)))
  submission (writes job' f (retried wf s b g p)) up changed =
      absurd (changed (Edge-attempts f.edge (λ q. cc)))
  submission (writes job' f (gave_up wf now seen c e p d)) up changed =
      absurd (changed (Edge-attempts f.edge (λ q. cc)))

  -- Attempts change only with a Workflow: where a run writes a status with other attempts than it
  -- read, it has made a Create, which the API server has confirmed, of the Workflow built for just
  -- that attempt.
  pub attempts_need_submission :
      (job' : TrainingJob) (r : Result E (Unit {0}))
      → Before (updated_job_status job' r) calls
      → job'.status.attempts ≢ job.status.attempts
      → IsSubmitted lib template_name job job' calls
  attempts_need_submission job' r b changed =
      let (t, j, up) = permitted b in submission j up changed

  withdrawal :
      {wf : Fields} {r : Result E (Unit {0})} {t : Trace E}
      → Permitted lib job template_name (deleted_unstructured wf r) t
      → ((d : Call E) → Before d t → Before d calls)
      → HasRead lib template_name job IsFailure wf calls
        × (le32 job.status.attempts job.spec.retry.backoff_limit ≡ true)
  withdrawal (withdraws wf live (observed b e) left) up =
      (record { got = up _ b; phase = failed_phases _ e }, left)

  -- A Workflow is deleted only to retry: the run has read it in the Argo phase Failed or Error, and
  -- the attempts have not passed the backoff limit.
  pub withdrawal_needs_lost_workflow :
      (wf : Fields) (r : Result E (Unit {0}))
      → Before (deleted_unstructured wf r) calls
      → HasRead lib template_name job IsFailure wf calls
        × (le32 job.status.attempts job.spec.retry.backoff_limit ≡ true)
  withdrawal_needs_lost_workflow wf r b = let (t, j, up) = permitted b in withdrawal j up

  success :
      {job' : TrainingJob} {r : Result E (Unit {0})} {t : Trace E}
      → Permitted lib job template_name (updated_job_status job' r) t
      → ((d : Call E) → Before d t → Before d calls)
      → job'.status.phase ≡ succeeded
      → (wf : Fields) × HasRead lib template_name job (λ p. p ≡ "Succeeded") wf calls
        × (job'.status.model_uri ≡ model_uri job)
  success (writes job' f (parked m p)) up q = cc
  success (writes job' f (submitted wf b p a n)) up q = cc
  success (writes job' f (followed wf adm seen p a n)) up q = cc
  success (writes job' f (completed wf now (observed b e) c p d m)) up q =
      (wf, record { got = up _ b; phase = succeeded_phases _ e }, m)
  success (writes job' f (retried wf s b g p)) up q = cc
  success (writes job' f (gave_up wf now seen c e p d)) up q = cc

  -- A run writes Succeeded only after it has read the Workflow of the attempt in the Argo phase
  -- Succeeded, and then with the URI s3://<bucket>/<namespace>/<name>/ of the model.
  pub success_needs_workflow :
      (job' : TrainingJob) (r : Result E (Unit {0}))
      → Before (updated_job_status job' r) calls
      → job'.status.phase ≡ succeeded
      → (wf : Fields) × HasRead lib template_name job (λ p. p ≡ "Succeeded") wf calls
        × (job'.status.model_uri ≡ "s3://" ++ (upload_prefix job ++ "/"))
  unfolding model_uri s3_path
  success_needs_workflow job' r b q = let (t, j, up) = permitted b in success j up q

  failure :
      {job' : TrainingJob} {r : Result E (Unit {0})} {t : Trace E}
      → Permitted lib job template_name (updated_job_status job' r) t
      → ((d : Call E) → Before d t → Before d calls)
      → job'.status.phase ≡ failed
      → (wf : Fields) × HasRead lib template_name job IsFailure wf calls
        × (le32 job.status.attempts job.spec.retry.backoff_limit ≡ false)
  failure (writes job' f (parked m p)) up q = cc
  failure (writes job' f (submitted wf b p a n)) up q = cc
  failure (writes job' f (followed wf adm seen p a n)) up q = cc
  failure (writes job' f (completed wf now seen c p d m)) up q = cc
  failure (writes job' f (retried wf s b g p)) up q = cc
  failure (writes job' f (gave_up wf now (observed b e) c spent p d)) up q =
      (wf, record { got = up _ b; phase = failed_phases _ e }, spent)

  -- A run writes Failed only after it has read the Workflow of the attempt in the Argo phase Failed or
  -- Error, with the attempts past the backoff limit.
  pub failed_needs_exhaustion :
      (job' : TrainingJob) (r : Result E (Unit {0}))
      → Before (updated_job_status job' r) calls
      → job'.status.phase ≡ failed
      → (wf : Fields) × HasRead lib template_name job IsFailure wf calls
        × (le32 job.status.attempts job.spec.retry.backoff_limit ≡ false)
  failed_needs_exhaustion job' r b q = let (t, j, up) = permitted b in failure j up q
