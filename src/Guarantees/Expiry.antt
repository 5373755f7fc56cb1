-- ===== src/Guarantees/Expiry.antt =====
-- The time to live in numbers, and what its end comes to.
use fyp.Common.{◌+◌, ◌-◌, ◌*◌, ◌^◌, ◌≤◌, ◌<◌, true, false, Option, none, some, ◌≡◌, refl, arith}
use fyp.Common.Words.{Int32, IsNonneg32, is_positive64}
use fyp.Exec.{Result, ok, err, ◌>>=◌}
use fyp.GoTime
use fyp.GoTime.{second}
use fyp.Api.TrainingJob.{TrainingJob, Time}
use fyp.Platform.{Library, Client}
use fyp.Controller.Ttl.{expiry, reconcile_ttl, expired, return_error}

-- For a job that has completed and has a time to live of an int32 number of seconds that is not
-- negative, the expiry is that many seconds after the completion: the time.Duration does not
-- overflow.
pub expiry-exact :
    (job : TrainingJob) {ttl : Int32} {completed : Time}
    → job.spec.ttl_seconds_after_finished ≡ some ttl
    → job.status.completion_time ≡ some completed
    → IsNonneg32 ttl
    → expiry job ≡ some (completed + ttl * 1000000000)
unfolding expiry
expiry-exact job p q h = rw (p, q) (ground arith)

return_error_end : {E W : Type 0} (r : Option E) (w : W) → (return_error {W = W} r w).1 ≡ w
unfolding ◌>>=◌
return_error_end none w = refl
return_error_end (some e) w = refl

module _ {E W : Type 0} (lib : Library E) (c : Client E W) where
  expiry_wait :
      (deadline now : Time)
      → now < deadline
      → deadline - now < 2 ^ 63
      → (is_positive64 (GoTime.sub deadline now) ≡ true)
        × (GoTime.sub deadline now ≡ deadline - now)
  unfolding GoTime.sub
  expiry_wait deadline now early fits = ground arith

  expiry_late :
      (deadline now : Time) → deadline ≤ now → is_positive64 (GoTime.sub deadline now) ≡ false
  unfolding GoTime.sub
  expiry_late deadline now late = ground arith

  expired_end : (r : Result E (Unit {0})) (w : W) → (expired lib c r w).1 ≡ w
  unfolding expired ◌>>=◌
  expired_end (ok _) w = refl
  expired_end (err e) w = return_error_end (lib.ignore_not_found e) w

  -- For a job with a time to live that is not negative, completed no later than the clock that is
  -- read, `reconcileTTL` asks to run again exactly when the time to live ends, if that is after the
  -- clock, and makes no other call. Otherwise it deletes the job and makes no other call: it
  -- returns no error and no requeue if the Delete succeeds or fails with an error that
  -- `client.IgnoreNotFound` drops, and the error that `client.IgnoreNotFound` keeps.
  pub ttl_schedule :
      (job : TrainingJob) (ttl : Int32) (completed : Time) (w : W)
      → job.spec.ttl_seconds_after_finished ≡ some ttl
      → job.status.completion_time ≡ some completed
      → IsNonneg32 ttl
      → completed ≤ (c.now w).0
      → let deadline = completed + ttl * 1000000000 in
        let (now, w') = c.now w in
        (now < deadline
          → reconcile_ttl lib c job w
            ≡ (ok (record { requeue = false; requeue_after = deadline - now }), w'))
        × (deadline ≤ now
            → let after = reconcile_ttl lib c job w in
              let (answer, w'') = c.delete_job job w' in
              (after.1 ≡ w'')
              × (answer ≡ ok tt → after.0 ≡ ok (record { requeue = false; requeue_after = 0 }))
              × ((e : E)
                  → answer ≡ err e
                  → lib.ignore_not_found e ≡ none
                  → after.0 ≡ ok (record { requeue = false; requeue_after = 0 }))
              × ((e kept : E)
                  → answer ≡ err e
                  → lib.ignore_not_found e ≡ some kept
                  → after.0 ≡ err kept))
  unfolding reconcile_ttl ◌>>=◌
  ttl_schedule job ttl completed w p q h k = rw (expiry-exact job p q h) (
    λ early. let (a, b) = expiry_wait _ _ early (omega (arith, early)) in rw (a, b),
    λ late.
        rw (expiry_late _ _ late)
          (expired_end _ _, λ p. rw p refl, λ e p q. rw (p, q) refl, λ e kept p q. rw (p, q) refl),
  )
