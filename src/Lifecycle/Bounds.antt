-- ===== src/Lifecycle/Bounds.antt =====
-- What holds of every stage that the edges reach from a new job.
use fyp.Common.{ℕ, ◌+◌, ◌-◌, ◌^◌, ◌≤◌, ◌<◌, ◌≡◌, true, arith}
use fyp.Api.TrainingJob.{unset, failed}
use fyp.Lifecycle.{
  Stage, Edge, park, start, restart, keep, succeed, retry, give_up, is_waiting_phase,
}

abbrev pub fresh : Stage
fresh = record { phase = unset; attempts = 0 }

-- A job that waits for its next attempt has retries left; all attempts are within the limit and the
-- first one; a job fails with the last of them.
pub record WithinBackoff (limit : ℕ) (s : Stage) : Type 0 where
  pub counted : s.attempts ≤ limit + 1
  pub waiting : is_waiting_phase s.phase ≡ true → s.attempts ≤ limit
  pub exhausted : s.phase ≡ failed → s.attempts ≡ limit + 1

pub fresh-WithinBackoff : (limit : ℕ) → WithinBackoff limit fresh
fresh-WithinBackoff limit = ground arith

pub Edge-WithinBackoff :
    {limit : ℕ} {s t : Stage}
    → limit < 2 ^ 31 - 1
    → Edge limit s t
    → WithinBackoff limit s
    → WithinBackoff limit t
Edge-WithinBackoff small (park w e) i = ground arith
Edge-WithinBackoff small (start w e) i = ground arith
Edge-WithinBackoff small (restart p z e) i = ground arith
Edge-WithinBackoff small (keep l e) i = ground arith
Edge-WithinBackoff small (succeed l e) i = ground arith
Edge-WithinBackoff small (retry l b e) i = ground arith
Edge-WithinBackoff small (give_up l b e) i = ground arith
