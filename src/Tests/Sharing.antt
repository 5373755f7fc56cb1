-- ===== src/Tests/Sharing.antt =====
-- Two jobs of a namespace share a quota.
use fyp.Common.{◌≤◌, false, none, List, [], ◌∷◌, ◌≡◌, refl, arith, eq_iff}
use fyp.Exec.{ok, err}
use fyp.Api.TrainingJob.{TrainingJob, unset}
use fyp.Trace.{Call, Trace, Oracle, tracing, Before, here, there, got_quota, listed_jobs}
use fyp.Controller.Reconcile.{reconcile}
use fyp.Convergence.Stored.{stored}
use fyp.Guarantees.Usage.{namespace_usage}
use fyp.Guarantees.Namespace.{Shows, shows, Serial, empty, created, run, serial_within_quota}
use fyp.Tests.World.{ApiError, not_found, library, answers, request, named_job, quota_of}
use fyp.Tests.Scenarios.{calls_of, new_job}

abbrev Each : (Call ApiError → Type 0) → Trace ApiError → Type 0
Each P [] = Unit {0}
Each P (c ∷ t) = P c × Each P t

Each-Before :
    (P : Call ApiError → Type 0) {c : Call ApiError} {t : Trace ApiError}
    → Before c t
    → Each P t
    → P c
Each-Before P here all = all.0
Each-Before P (there b) all = Each-Before P b all.1

abbrev waiting_job : TrainingJob
waiting_job = named_job "other" unset 0 none

abbrev both : List TrainingJob
both = new_job ∷ waiting_job ∷ []

-- The first job's run, with a quota of 4.
abbrev sharing : Oracle ApiError
sharing = answers new_job (ok (quota_of 4)) both (err not_found) 100

abbrev HasFour : Call ApiError → Type 0
HasFour (got_quota n (ok quota)) = quota.spec.hard_gpus ≡ 4
HasFour _ = Unit {0}

abbrev IsThere : Call ApiError → Type 0
IsThere (got_quota n (err e)) = library.is_not_found e ≡ false
IsThere _ = Unit {0}

abbrev IsFresh : Call ApiError → Type 0
IsFresh (listed_jobs n (ok jobs)) = Shows [] (waiting_job ∷ []) new_job jobs
IsFresh _ = Unit {0}

seen : Shows [] (waiting_job ∷ []) new_job both
seen = shows new_job refl refl

quota_answers : Each HasFour (calls_of sharing)
unfolding calls_of
quota_answers = (tt, (refl, (tt, (tt, (tt, (tt, (tt, (tt, (refl, (tt, tt))))))))))

quota_errors : Each IsThere (calls_of sharing)
unfolding calls_of
quota_errors = (tt, (tt, (tt, (tt, (tt, (tt, (tt, (tt, (tt, (tt, tt))))))))))

list_answers : Each IsFresh (calls_of sharing)
unfolding calls_of
list_answers = (seen, (tt, (tt, (tt, (tt, (tt, (tt, (seen, (tt, (tt, tt))))))))))

both_created : Serial library "" 4 both
both_created = created [] (waiting_job ∷ []) new_job (created [] [] waiting_job empty refl) refl

serial_within_quota_example :
    namespace_usage
      (stored new_job (reconcile library (tracing sharing) "" request []).1 ∷ waiting_job ∷ [])
    ≤ 4
unfolding calls_of
serial_within_quota_example = serial_within_quota library "" 4 (
    run [] (waiting_job ∷ []) new_job sharing request both_created refl tt
      (ground (arith, eq_iff "other" "mnist"), tt) (omega arith)
      (λ quota b. Each-Before HasFour b quota_answers) (λ e b. Each-Before IsThere b quota_errors)
      (λ peers b. Each-Before IsFresh b list_answers))
