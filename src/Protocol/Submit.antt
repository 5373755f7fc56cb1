-- ===== src/Protocol/Submit.antt =====
-- The submission of a Workflow keeps to the protocol. The job at hand differs from the job that was
-- read in its conditions at most.
use fyp.Common.{String, true, Option, none, some, ◌≡◌, refl, ap, arith, if◌then◌else◌}
use fyp.Common.Words.{Int32}
use fyp.Exec.{Result, ok, err, ◌>>=◌}
use fyp.Api.TrainingJob.{TrainingJob, TrainingJobStatus, ObjectMeta, Time, running}
use fyp.WorkflowBuilder.{Fields, workflow_gvk, workflow_name}
use fyp.Platform.{Library}
use fyp.Trace.{Call, Trace, Obeys, call, Oracle, tracing, created_unstructured, got_unstructured}
use fyp.Lifecycle.{Edge, stage_of, is_live_phase, start, restart, keep}
use fyp.Protocol.{
  Before, here, there, Same, Follows, Permitted, Admitted, attempt_name, attempt_key, submitted,
  records, submits, reads_clock,
}
use fyp.Protocol.Logic.{
  Keeps, Keeps-pure, Keeps-raise, Keeps-if, Keeps-bind, Keeps-try, Keeps-total, Keeps-effect,
  Keeps-lift,
}
use fyp.Protocol.Gate.{write-Keeps}
use fyp.Controller.Workflows.{
  next_attempt, with_status, write_submission, record_submission, submit, created, start_time,
}

next_attempt-Same : {job job₁ : TrainingJob} → Same job job₁ → next_attempt job₁ ≡ next_attempt job
unfolding next_attempt
next_attempt-Same s = ground arith

-- The attempts that are written are the number of the attempt, also when they stay.
counted :
    (job : TrainingJob)
    → (if (next_attempt job).1 then (next_attempt job).0 else job.status.attempts)
      ≡ (next_attempt job).0
unfolding next_attempt
counted job = ground arith

next-Edge :
    (job : TrainingJob) (limit : Int32)
    → is_live_phase job.status.phase ≡ true
    → Edge limit (stage_of job) (record { phase = running; attempts = (next_attempt job).0 })
unfolding next_attempt
next-Edge job limit live = grind (arith, start, restart, keep)

pub attempt_name-Same :
    {job job₁ : TrainingJob} → Same job job₁ → attempt_name job₁ ≡ attempt_name job
unfolding workflow_name
attempt_name-Same s = rw (next_attempt-Same s, s.metadata)

module _ {E : Type 0} (lib : Library E) (o : Oracle E) (template_name : String) (job : TrainingJob)
    {job₁ : TrainingJob} (same : Same job job₁) (live : is_live_phase job.status.phase ≡ true) where
  pub namespace-Same : job₁.metadata.namespace ≡ job.metadata.namespace
  namespace-Same = ap (λ (m : ObjectMeta). m.namespace) same.metadata

  attempts-Same :
      (if (next_attempt job₁).1 then (next_attempt job₁).0 else job₁.status.attempts)
      ≡ (next_attempt job).0
  attempts-Same = rw (next_attempt-Same same, same.attempts) (counted job)

  -- A status that keeps what the step does not change.
  pub status-Follows :
      (s : TrainingJobStatus)
      → Edge job.spec.retry.backoff_limit
          (stage_of job)
          (record { phase = s.phase; attempts = s.attempts })
      → Follows job (with_status job₁ s)
  status-Follows s e = record { metadata = same.metadata; spec = same.spec; edge = e }

  write_submission-Keeps :
      (wf : Fields) (name : String) (begun : Option Time) (t : Trace E)
      → name ≡ attempt_name job
      → Before (created_unstructured wf (ok tt)) t
      → Obeys (Permitted lib job template_name) t
      → Keeps (Permitted lib job template_name) t (
          write_submission lib
            (tracing o)
            job₁
            (next_attempt job₁).0
            (next_attempt job₁).1
            name
            begun)
  unfolding write_submission
  write_submission-Keeps wf name begun t named b h =
      write-Keeps lib o template_name job _ _ _ namespace-Same
        (status-Follows _ (rw attempts-Same (next-Edge job _ live)))
        (submitted wf b refl attempts-Same named) h

  start_time-Keeps :
      (r : Option Time) (t : Trace E)
      → Obeys (Permitted lib job template_name) t
      → Keeps (Permitted lib job template_name) t (start_time lib (tracing o) r)
  unfolding start_time
  start_time-Keeps none t h = Keeps-total _ _ (Keeps-pure _ (call reads_clock h))
  start_time-Keeps (some x) t h = Keeps-pure _ h

  start_time-Before :
      {c : Call E} (r : Option Time) (t : Trace E)
      → Before c t
      → Before c (start_time lib (tracing o) r t).1
  unfolding start_time ◌>>=◌
  start_time-Before none t b = there b
  start_time-Before (some x) t b = b

  record_submission-Keeps :
      (wf : Fields) (name : String) (t : Trace E)
      → name ≡ attempt_name job
      → Before (created_unstructured wf (ok tt)) t
      → Obeys (Permitted lib job template_name) t
      → Keeps
          (Permitted lib job template_name)
          t
          (record_submission lib (tracing o) job₁ (next_attempt job₁).0 (next_attempt job₁).1 name)
  unfolding record_submission
  record_submission-Keeps wf name t named b h =
      let begun = start_time-Keeps job₁.status.start_time _ (call records h) in
      Keeps-effect _ _ (
        Keeps-bind _ _ begun λ x _.
          write_submission-Keeps wf name x _ named
            (start_time-Before job₁.status.start_time _ (there b)) begun.safe)

  created-Keeps :
      (wf : Fields) (name : String) (r : Result E (Unit {0})) (t : Trace E)
      → name ≡ attempt_name job
      → Before (created_unstructured wf r) t
      → Obeys (Permitted lib job template_name) t
      → Keeps
          (Permitted lib job template_name)
          t
          (created lib (tracing o) job₁ (next_attempt job₁).0 (next_attempt job₁).1 name r)
  unfolding created
  created-Keeps wf name (ok x) t named b h = record_submission-Keeps wf name t named b h
  created-Keeps wf name (err e) t named b h = search (Keeps-if, Keeps-pure, Keeps-raise)

  pub submit-Keeps :
      (name : String) (e : E) (t : Trace E)
      → name ≡ attempt_name job
      → Before (got_unstructured workflow_gvk (attempt_key job) (err e)) t
      → lib.is_not_found e ≡ true
      → Admitted lib job t
      → Obeys (Permitted lib job template_name) t
      → Keeps (Permitted lib job template_name) t (
          submit lib
            (tracing o)
            template_name
            job₁
            (next_attempt job₁).0
            (next_attempt job₁).1
            name)
  unfolding submit
  submit-Keeps name e t named b gone admitted h = Keeps-lift _ _ h λ wf built. Keeps-try _ _ (
      created-Keeps wf name _ _ named here (
        call (submits job₁ wf e live admitted b gone same (rw (next_attempt-Same same) at built))
          h))
