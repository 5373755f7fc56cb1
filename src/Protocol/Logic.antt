-- ===== src/Protocol/Logic.antt =====
-- Rules for proving that an action keeps a trace obedient, one for each way to build an action, and
-- the facts that a longer trace keeps.
use fyp.Common.{◌≡◌, refl, subst, Bool, true, false, List, ◌∷◌, if◌then◌else◌}
use fyp.Exec.{Exec, Result, ok, err, pure, raise, try, total, effect, lift, ◌>>=◌, ◌>>◌}
use fyp.Trace.{Call, Trace, Rule, Obeys}
use fyp.Api.Conditions.{Condition}
use fyp.Api.TrainingJob.{TrainingJob, TrainingJobPhase, queued}
use fyp.WorkflowBuilder.{Fields}
use fyp.Platform.{Library}
use fyp.Lifecycle.{is_waiting_phase, park}
use fyp.Protocol.{
  Before, here, there, Measured, measured, Admitted, started, unlimited, within, Observed, observed,
  Follows,
}

-- After the trace `t`, the calls of `m` obey the rule.
pub record Keeps {E A : Type 0} (J : Rule E) (t : Trace E) (m : Exec (Trace E) E A) : Type 0 where
  pub safe : Obeys J (m t).1

module _ {E A : Type 0} {J : Rule E} {t : Trace E} where
  pub Keeps-pure : (a : A) → Obeys J t → Keeps J t (pure a)
  unfolding ◌>>=◌
  Keeps-pure a h = record { safe = h }

  pub Keeps-raise : (e : E) → Obeys J t → Keeps J t (raise {A = A} e)
  unfolding ◌>>=◌
  Keeps-raise e h = record { safe = h }

  pub Keeps-if :
      (b : Bool) (m n : Exec (Trace E) E A)
      → (b ≡ true → Keeps J t m)
      → (b ≡ false → Keeps J t n)
      → Keeps J t (if b then m else n)
  Keeps-if true m n km kn = km refl
  Keeps-if false m n km kn = kn refl

module _ {E A B : Type 0} {J : Rule E} {t : Trace E} where
  pub Keeps-lift :
      (r : Result E A) (f : A → Exec (Trace E) E B)
      → Obeys J t
      → ((a : A) → r ≡ ok a → Keeps J t (f a))
      → Keeps J t (lift r >>= f)
  unfolding ◌>>=◌
  Keeps-lift (ok a) f h k = record { safe = (k a refl).safe }
  Keeps-lift (err e) f h k = record { safe = h }

module _ {E A B : Type 0} {J : Rule E} {t : Trace E} where
  pub Keeps-bind :
      (m : Exec (Trace E) E A) (f : A → Exec (Trace E) E B)
      → Keeps J t m
      → ((a : A) → (m t).0 ≡ ok a → Keeps J (m t).1 (f a))
      → Keeps J t (m >>= f)
  unfolding ◌>>=◌
  Keeps-bind m f km kf = record { safe = (Keeps-lift {t = (m t).1} (m t).0 f km.safe kf).safe }

  pub Keeps-try :
      (m : Exec (Trace E) E A) (f : Result E A → Exec (Trace E) E B)
      → Keeps J (m t).1 (f (m t).0)
      → Keeps J t (try m >>= f)
  unfolding ◌>>=◌
  Keeps-try m f k = record { safe = k.safe }

  pub Keeps-total :
      (g : Trace E → A × Trace E) (f : A → Exec (Trace E) E B)
      → Keeps J (g t).1 (f (g t).0)
      → Keeps J t (total g >>= f)
  unfolding ◌>>=◌
  Keeps-total g f k = record { safe = k.safe }

module _ {E B : Type 0} {J : Rule E} {t : Trace E} where
  pub Keeps-effect :
      (g : Trace E → Trace E) (n : Exec (Trace E) E B) → Keeps J (g t) n → Keeps J t (effect g >> n)
  unfolding ◌>>=◌
  Keeps-effect g n k = record { safe = k.safe }

-- What holds of the value and the trace, if `m` returns no error after the trace `t`.
pub record Gives {E A : Type 0} (t : Trace E) (m : Exec (Trace E) E A) (Q : A → Trace E → Type 0)
    : Type 0 where
  pub post : (a : A) → (m t).0 ≡ ok a → Q a (m t).1

module _ {E A B : Type 0} {Q : B → Trace E → Type 0} {t : Trace E} where
  Gives-lift :
      (r : Result E A) (f : A → Exec (Trace E) E B)
      → ((a : A) → r ≡ ok a → Gives t (f a) Q)
      → Gives t (lift r >>= f) Q
  unfolding ◌>>=◌
  Gives-lift (ok a) f k = record { post = (k a refl).post }
  Gives-lift (err e) f k = record { post = λ b p. cc }

module _ {E A B : Type 0} {Q : B → Trace E → Type 0} {t : Trace E} where
  pub Gives-bind :
      (m : Exec (Trace E) E A) (f : A → Exec (Trace E) E B)
      → ((a : A) → (m t).0 ≡ ok a → Gives (m t).1 (f a) Q)
      → Gives t (m >>= f) Q
  unfolding ◌>>=◌
  Gives-bind m f k = record { post = (Gives-lift {t = (m t).1} (m t).0 f k).post }

  pub Gives-try :
      (m : Exec (Trace E) E A) (f : Result E A → Exec (Trace E) E B)
      → Gives (m t).1 (f (m t).0) Q
      → Gives t (try m >>= f) Q
  unfolding ◌>>=◌
  Gives-try m f k = record { post = k.post }

module _ {E : Type 0} {lib : Library E} {job : TrainingJob} {c : Call E} {t : Trace E} where
  pub Measured-there : {over : Bool} → Measured lib job over t → Measured lib job over (c ∷ t)
  Measured-there (measured q peers got listed e) = measured q peers (there got) (there listed) e

  pub Admitted-there : Admitted lib job t → Admitted lib job (c ∷ t)
  Admitted-there (started e) = started e
  Admitted-there (unlimited e got gone) = unlimited e (there got) gone
  Admitted-there (within m) = within (Measured-there m)

  pub Observed-there :
      {phase : TrainingJobPhase} {terminal : Bool} {wf : Fields}
      → Observed lib job phase terminal wf t
      → Observed lib job phase terminal wf (c ∷ t)
  Observed-there (observed got mapped) = observed (there got) mapped

-- The latest call, up to an equation for its answer.
pub Before-latest : {E : Type 0} {c d : Call E} {t : Trace E} → c ≡ d → Before c (d ∷ t)
Before-latest {c} {t} e = subst (λ d. Before c (d ∷ t)) e here

-- A parked job keeps all but its phase and conditions.
pub queued-Follows :
    {job : TrainingJob}
    → is_waiting_phase job.status.phase ≡ true
    → (cs : List Condition)
    → Follows job (record job { status = record job.status { phase = queued; conditions = cs } })
queued-Follows w cs = record { metadata = refl; spec = refl; edge = park w refl }
