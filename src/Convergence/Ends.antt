-- ===== src/Convergence/Ends.antt =====
-- The steps of the abstract machine in the rounds of a job, and where they end.
use native.Mathlib.Nat.{mul-suc, mul-zero}
use fyp.Common.{
  ◌*◌, ℕ, zero, suc, ◌+◌, ◌-◌, ◌^◌, ◌≤◌, ◌<◌, Bool, true, ◌||◌, false, Option, none, some, ◌≡◌,
  refl, if◌then◌else◌, arith,
}
use fyp.Api.TrainingJob.{◌==ᵖ◌, pending, queued, running, succeeded, failed}
use fyp.Lifecycle.{Stage, is_waiting_phase}
use fyp.Convergence.{Outcome, ongoing, won, lost, next}

-- What a run finds of the job's attempt: there is no Workflow for a waiting job's next attempt, and
-- that of a Running job's attempt `a` goes on, or has ended, with success exactly if `wins a`.
abbrev pub shown : (ℕ → Bool) → Bool → Stage → Option Outcome
shown wins over s =
    if is_waiting_phase s.phase
    then none
    else some (if over then (if wins s.attempts then won else lost) else ongoing)

-- The end of a job that makes the attempt `a` and has `left` retries behind it.
abbrev pub end : (ℕ → Bool) → ℕ → ℕ → Stage
end wins zero a =
    if wins a
    then record { phase = succeeded; attempts = a }
    else record { phase = failed; attempts = a }
end wins (suc left) a =
    if wins a then record { phase = succeeded; attempts = a } else end wins left (a + 1)

abbrev pub is_end : Stage → Bool
is_end s = s.phase ==ᵖ succeeded || s.phase ==ᵖ failed

pub end-is_end : (wins : ℕ → Bool) (left a : ℕ) → is_end (end wins left a) ≡ true
end-is_end wins zero a = ground arith
end-is_end wins (suc left) a = ground (arith, end-is_end wins left (a + 1))

-- The most rounds that the end takes, if what a job waits for comes within `d` rounds.
abbrev pub rounds : ℕ → ℕ → ℕ
rounds d zero = d + d
rounds d (suc left) = d + d + rounds d left

pub rounds-mul : (d left : ℕ) → rounds d left ≡ 2 * d * suc left
rounds-mul d zero = omega (arith, mul-suc (2 * d) 0, mul-zero (2 * d))
rounds-mul d (suc left) = omega (arith, mul-suc (2 * d) (suc left), rounds-mul d left)

-- A round without room, and one in which the Workflow goes on.
pub wait_step :
    (wins : ℕ → Bool) (over : Bool) (n : ℕ) (s : Stage)
    → is_waiting_phase s.phase ≡ true
    → next n s false (shown wins over s) ≡ record s { phase = queued }
wait_step wins over n s w = rw w refl

pub idle_step :
    (wins : ℕ → Bool) (room : Bool) (n a : ℕ)
    → next n
        (record { phase = running; attempts = a })
        room
        (shown wins false (record { phase = running; attempts = a }))
      ≡ record { phase = running; attempts = a }
idle_step wins room n a = refl

-- The two steps of one attempt.
pub start_step :
    (wins : ℕ → Bool) (over : Bool) (n : ℕ) (s : Stage)
    → is_waiting_phase s.phase ≡ true
    → s.attempts < 2 ^ 31 - 1
    → next n s true (shown wins over s) ≡ record { phase = running; attempts = s.attempts + 1 }
start_step wins over n s w lt = ground arith

module _ (wins : ℕ → Bool) (room : Bool) (n a : ℕ) where
  abbrev pub ended : Stage
  ended =
      next n (record { phase = running; attempts = a }) room
        (shown wins true (record { phase = running; attempts = a }))

  pub win_step : wins a ≡ true → ended ≡ record { phase = succeeded; attempts = a }
  win_step w = rw w refl

  pub retry_step :
      wins a ≡ false → a ≤ n → n < 2 ^ 31 - 1 → ended ≡ record { phase = pending; attempts = a }
  retry_step w le lt = rw w (ground arith)

  pub fail_step :
      wins a ≡ false → a ≡ n + 1 → n < 2 ^ 31 - 1 → ended ≡ record { phase = failed; attempts = a }
  fail_step w e lt = rw w (ground arith)
