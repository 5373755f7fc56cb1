-- ===== src/Convergence.antt =====
-- The reconciler as an implementation of an abstract machine: what one run makes of a job's stage,
-- given what it finds in the cluster.
pub mod Stored
pub mod Attempt
pub mod Refinement
pub mod Ends
pub mod Termination
use fyp.Common.{String, Bool, not, ◌&&◌, ◌||◌, Option, none, some, ◌==ˢ◌, ◌==◌, if◌then◌else◌}
use fyp.Common.Words.{Int32, le32}
use fyp.Api.TrainingJob.{◌==ᵖ◌, pending, queued, running, succeeded, failed}
use fyp.Lifecycle.{Stage, is_waiting_phase, after}

-- How a Workflow fares.
pub data Outcome : Type 0 where
  ongoing won lost : Outcome

abbrev pub outcome : String → Outcome
outcome wf_phase =
    if wf_phase ==ˢ "Succeeded"
    then won
    else if wf_phase ==ˢ "Failed" || wf_phase ==ˢ "Error"
    then lost
    else ongoing

-- The attempt that a new Workflow makes.
abbrev pub counted : Stage → Int32
counted s = if s.phase ==ᵖ running && not (s.attempts == 0) then s.attempts else after s.attempts

-- The stage that a job with quota reaches, by the Workflow of its attempt, if there is one.
abbrev pub reach : Int32 → Stage → Option Outcome → Stage
reach limit s none = record { phase = running; attempts = counted s }
reach limit s (some ongoing) = record s { phase = running }
reach limit s (some won) = record s { phase = succeeded }
reach limit s (some lost) =
    if le32 s.attempts limit then record s { phase = pending } else record s { phase = failed }

-- One step, by whether the quota has room.
abbrev pub next : Int32 → Stage → Bool → Option Outcome → Stage
next limit s room seen =
    if is_waiting_phase s.phase && not room then record s { phase = queued } else reach limit s seen
