-- ===== src/Startup/Rules.antt =====
-- Which call may follow at start-up, how the program may end, and the rules for its steps.
use fyp.Common.{String, Bool, true, false, List, [], ◌∷◌, none, some, ◌≡◌, refl, subst}
use fyp.Exec.{Exec, Result, ok, err, lift, ◌>>=◌, ◌>>◌}
use fyp.Trace.{Obeys, call, Before, here}
use fyp.Startup.{
  training_job, training_job_list, gpu_quota, gpu_quota_list, Packages, Exit, panicked, exited,
  checked,
}
use fyp.Startup.Calls.{
  Call, Trace, Oracle, tracing, answer_of, error_of, exit_of, Calm, added_client_go,
  added_to_scheme, made_manager, completed, added_healthz_check, added_readyz_check, started,
  logged_error,
}

-- The latest call, up to an equation for its answer.
pub Before-last : {C : Type 0} {c d : C} {t : List C} → c ≡ d → Before c (d ∷ t)
Before-last {c} {t} e = subst (λ d. Before c (d ∷ t)) e here

module _ {W E A B C : Type 0} where
  pub lift_assoc :
      (r : Result E A) (f : A → Exec W E B) (g : B → Exec W E C) (w : W)
      → ((lift r >>= f) >>= g) w ≡ (lift r >>= λ a. f a >>= g) w
  unfolding ◌>>=◌
  lift_assoc (ok a) f g w = refl
  lift_assoc (err e) f g w = refl

module _ {E : Type 0} {types : Packages} where
  -- A call that neither starts a manager nor logs an error.
  abbrev is_plain : Call E types → Bool
  is_plain (started m ctx r) = false
  is_plain (logged_error e message about) = false
  is_plain _ = true

  -- How a run may end, with its calls.
  pub data Ending : Result (Exit E) (Unit {0}) × Trace E types → Type 0 where
    finished :
        {m : types.Manager} {ctx : types.Context} {t : Trace E types}
        → Calm t
        → Ending (ok tt, started m ctx (ok tt) ∷ t)
    exits :
        {c : Call E types} {e : E} {message : String} {about : List (String × String)}
        {t : Trace E types}
        → error_of c ≡ some e
        → Calm t
        → Ending (err (exited 1), logged_error e message about ∷ c ∷ t)
    panicking :
        {c : Call E types} {e : E} {t : Trace E types}
        → error_of c ≡ some e
        → Calm t
        → Ending (err (panicked e), c ∷ t)
    quits :
        {c : Call E types} {x : Exit E} {t : Trace E types}
        → exit_of c ≡ some x
        → Calm t
        → Ending (err x, c ∷ t)

module _ {E : Type 0} {types : Packages} (o : Oracle E types) where
  -- The manager is ready to be started: it was made with the scheme to which the types of client-go and
  -- the four of the group mlplatform.fyp.io, version v1alpha1, were added, and with the settings of
  -- the flags; it has the controller that watches jobs and owns Workflows, with the reconciler, and
  -- both probes.
  pub record IsReady (m : types.Manager) (t : Trace E types) : Type 0 where
    pub config : types.Config
    pub values : types.Values
    pub known : Before (added_client_go o.new_scheme (ok tt)) t
    pub own :
        Before
          (added_to_scheme
            (o.register
              (o.register
                (o.new_builder (record { group = "mlplatform.fyp.io"; version = "v1alpha1" }))
                (gpu_quota ∷ gpu_quota_list ∷ []))
              (training_job ∷ training_job_list ∷ []))
            o.new_scheme
            (ok tt))
          t
    pub made :
        Before
          (made_manager config
            (record {
              scheme = o.new_scheme;
              metrics_bind_address = o.text values "metrics-bind-address";
              health_probe_bind_address = o.text values "health-probe-bind-address";
              leader_election = o.switch values "leader-elect";
              leader_election_id = "mlplatform.fyp.io";
            })
            (ok m))
          t
    pub watched :
        Before
          (completed m
            (record {
              for_type = training_job;
              owns = record { group = "argoproj.io"; version = "v1alpha1"; kind = "Workflow" };
              named = "trainingjob";
            })
            (record {
              client = o.get_client m;
              recorder = o.get_event_recorder_for m "ml-operator";
              template_name = o.text values "workflow-template";
            })
            (ok tt))
          t
    pub healthz : Before (added_healthz_check m "healthz" o.ping (ok tt)) t
    pub readyz : Before (added_readyz_check m "readyz" o.ping (ok tt)) t

  -- A call that may follow these.
  pub data Due : Call E types → Trace E types → Type 0 where
    plain : {c : Call E types} {t : Trace E types} → is_plain c ≡ true → Calm t → Due c t
    starts :
        {m : types.Manager} {ctx : types.Context} {r : Result E (Unit {0})} {t : Trace E types}
        → Calm t
        → IsReady m t
        → Due (started m ctx r) t
    logs :
        {c : Call E types} {e : E} {message : String} {about : List (String × String)}
        {t : Trace E types}
        → error_of c ≡ some e
        → Due (logged_error e message about) (c ∷ t)

  pub record Sound (out : Result (Exit E) (Unit {0}) × Trace E types) : Type 0 where
    pub ending : Ending out
    pub due : Obeys Due out.1

  module _ {c : Call E types} {t : Trace E types} (plain_exit : exit_of c ≡ none) (calm : Calm t)
      (due : Obeys Due (c ∷ t)) where
    pub checked-Sound :
        {A : Type 0} (message : String) (about : List (String × String)) (r : Result E A)
        (k : A → Exec (Trace E types) (Exit E) (Unit {0}))
        → error_of c ≡ answer_of r
        → ((a : A) → r ≡ ok a → Calm (c ∷ t) → Sound (k a (c ∷ t)))
        → Sound ((checked (tracing o) message about r >>= k) (c ∷ t))
    unfolding checked ◌>>=◌
    checked-Sound message about (ok a) k e next = next a refl (e, plain_exit, calm)
    checked-Sound message about (err x) k e next = record {
      ending = exits e calm;
      due = call (logs e) due;
    }

    pub must-Sound :
        (r : Result E (Unit {0})) (k : Exec (Trace E types) (Exit E) (Unit {0}))
        → error_of c ≡ answer_of r
        → (r ≡ ok tt → Calm (c ∷ t) → Sound (k (c ∷ t)))
        → Sound (((tracing o).must r >> k) (c ∷ t))
    unfolding ◌>>=◌
    must-Sound (ok tt) k e next = next refl (e, plain_exit, calm)
    must-Sound (err x) k e next = record { ending = panicking e calm; due = due }

  module _ {c : Call E types} {t : Trace E types} (plain_error : error_of c ≡ none) (calm : Calm t)
      (due : Obeys Due (c ∷ t)) where
    pub exit-Sound :
        {A : Type 0} (r : Result (Exit E) A) (k : A → Exec (Trace E types) (Exit E) (Unit {0}))
        → exit_of c ≡ answer_of r
        → ((a : A) → Calm (c ∷ t) → Sound (k a (c ∷ t)))
        → Sound (((λ w. (r, w)) >>= k) (c ∷ t))
    unfolding ◌>>=◌
    exit-Sound (ok a) k e next = next a (plain_error, e, calm)
    exit-Sound (err x) k e next = record { ending = quits e calm; due = due }

  pub last-Sound :
      (message : String) (about : List (String × String)) (m : types.Manager) (ctx : types.Context)
      (r : Result E (Unit {0})) (t : Trace E types)
      → Calm t
      → Obeys Due (started m ctx r ∷ t)
      → Sound (checked (tracing o) message about r (started m ctx r ∷ t))
  unfolding checked ◌>>=◌
  last-Sound message about m ctx (ok tt) t calm due = record { ending = finished calm; due = due }
  last-Sound message about m ctx (err x) t calm due = record {
    ending = exits refl calm;
    due = call (logs refl) due;
  }
