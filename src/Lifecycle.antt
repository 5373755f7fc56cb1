-- ===== src/Lifecycle.antt =====
-- The state machine of a TrainingJob (docs/architecture.md, "TrainingJob state machine"), with the
-- edges that the code takes. A stage is the part of the status on which the machine runs.
pub mod Bounds
use fyp.Common.{ℕ, Bool, true, false, ◌+◌, ◌%◌, ◌^◌, ◌≡◌, ◌==◌, ◌||◌, not, if◌then◌else◌}
use fyp.Common.Words.{Int32, add32, le32}
use fyp.Api.TrainingJob.{
  TrainingJob, TrainingJobPhase, ◌==ᵖ◌, unset, pending, queued, running, succeeded, failed,
}

pub record Stage : Type 0 where
  pub phase : TrainingJobPhase
  pub attempts : Int32

abbrev pub stage_of : TrainingJob → Stage
stage_of job = record { phase = job.status.phase; attempts = job.status.attempts }

abbrev pub is_waiting_phase : TrainingJobPhase → Bool
is_waiting_phase p = p ==ᵖ unset || (p ==ᵖ pending || p ==ᵖ queued)

abbrev pub is_live_phase : TrainingJobPhase → Bool
is_live_phase p = is_waiting_phase p || p ==ᵖ running

-- The number of the attempt behind `a`, which is never 0.
abbrev pub after : Int32 → Int32
after a = if add32 a 1 == 0 then 1 else add32 a 1

-- One write of the status, under a backoff limit.
pub data Edge (limit : Int32) (s t : Stage) : Type 0 where
  -- over the quota
  park : is_waiting_phase s.phase ≡ true → t ≡ record s { phase = queued } → Edge limit s t
  -- a Workflow was created for the next attempt
  start :
      is_waiting_phase s.phase ≡ true
      → t ≡ record { phase = running; attempts = after s.attempts }
      → Edge limit s t
  -- a Workflow was created for a job that runs with no attempt counted
  restart :
      s.phase ≡ running
      → s.attempts ≡ 0
      → t ≡ record { phase = running; attempts = 1 }
      → Edge limit s t
  -- the attempt's Workflow is there, or was created anew for a running job
  keep : is_live_phase s.phase ≡ true → t ≡ record s { phase = running } → Edge limit s t
  succeed : is_live_phase s.phase ≡ true → t ≡ record s { phase = succeeded } → Edge limit s t
  retry :
      is_live_phase s.phase ≡ true
      → le32 s.attempts limit ≡ true
      → t ≡ record s { phase = pending }
      → Edge limit s t
  give_up :
      is_live_phase s.phase ≡ true
      → le32 s.attempts limit ≡ false
      → t ≡ record s { phase = failed }
      → Edge limit s t
