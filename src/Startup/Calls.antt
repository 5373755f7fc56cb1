-- ===== src/Startup/Calls.antt =====
-- The calls that the program makes at start-up, in every environment: an oracle answers each call by
-- any function of the calls before it. A trace has the latest call first.
use fyp.Common.{◌≡◌, String, Bool, List, [], ◌∷◌, Option, none, some}
use fyp.Exec.{Result, ok, err}
use fyp.Startup.{
  Packages, Runtime, GroupVersion, ApiType, Flag, ManagerOptions, ControllerBuild,
  TrainingJobReconciler, Exit, panicked,
}

-- A call with its answer.
pub data Call (E : Type 0) (types : Packages) : Type 0 where
  added_client_go : types.Scheme → Result E (Unit {0}) → Call E types
  added_to_scheme : types.SchemeBuilder → types.Scheme → Result E (Unit {0}) → Call E types
  parsed : List Flag → Result (Exit E) types.Values → Call E types
  set_logger : types.Values → Call E types
  got_config : Result (Exit E) types.Config → Call E types
  made_manager : types.Config → ManagerOptions types.Scheme → Result E types.Manager → Call E types
  completed :
      types.Manager
      → ControllerBuild
      → TrainingJobReconciler types.Client types.Recorder
      → Result E (Unit {0})
      → Call E types
  added_healthz_check : types.Manager → String → types.Checker → Result E (Unit {0}) → Call E types
  added_readyz_check : types.Manager → String → types.Checker → Result E (Unit {0}) → Call E types
  handled_signals : types.Context → Call E types
  started : types.Manager → types.Context → Result E (Unit {0}) → Call E types
  logged_error : E → String → List (String × String) → Call E types
  logged_info : String → Call E types

abbrev pub Trace : Type 0 → Packages → Type 0
Trace E types = List (Call E types)

pub record Oracle (E : Type 0) (types : Packages) : Type 0 where
  pub new_scheme : types.Scheme
  pub new_builder : GroupVersion → types.SchemeBuilder
  pub register : types.SchemeBuilder → List ApiType → types.SchemeBuilder
  pub zap_flags : List Flag
  pub text : types.Values → String → String
  pub switch : types.Values → String → Bool
  pub get_client : types.Manager → types.Client
  pub get_event_recorder_for : types.Manager → String → types.Recorder
  pub add_client_go : Trace E types → types.Scheme → Result E (Unit {0})
  pub add_to_scheme : Trace E types → types.SchemeBuilder → types.Scheme → Result E (Unit {0})
  pub parse : Trace E types → List Flag → Result (Exit E) types.Values
  pub get_config : Trace E types → Result (Exit E) types.Config
  pub new_manager :
      Trace E types → types.Config → ManagerOptions types.Scheme → Result E types.Manager
  pub complete :
      Trace E types
      → types.Manager
      → ControllerBuild
      → TrainingJobReconciler types.Client types.Recorder
      → Result E (Unit {0})
  pub ping : types.Checker
  pub add_healthz_check :
      Trace E types → types.Manager → String → types.Checker → Result E (Unit {0})
  pub add_readyz_check :
      Trace E types → types.Manager → String → types.Checker → Result E (Unit {0})
  pub setup_signal_handler : Trace E types → types.Context
  pub start : Trace E types → types.Manager → types.Context → Result E (Unit {0})

-- utilruntime.Must panics on an error that is not nil.
abbrev pub panics : {E : Type 0} → Result E (Unit {0}) → Result (Exit E) (Unit {0})
panics (ok x) = ok x
panics (err e) = err (panicked e)

-- The runtime that answers by the oracle and keeps the trace.
abbrev pub tracing :
    {E : Type 0} {types : Packages} → Oracle E types → Runtime E (Trace E types) types
tracing o = record {
  new_scheme = o.new_scheme;
  new_builder = o.new_builder;
  register = o.register;
  add_to_scheme = λ b s t. let r = o.add_to_scheme t b s in (r, added_to_scheme b s r ∷ t);
  add_client_go = λ s t. let r = o.add_client_go t s in (r, added_client_go s r ∷ t);
  must = λ r t. (panics r, t);
  zap_flags = o.zap_flags;
  parse = λ fs t. let r = o.parse t fs in (r, parsed fs r ∷ t);
  text = o.text;
  switch = o.switch;
  set_logger = λ values t. set_logger values ∷ t;
  get_config_or_die = λ t. let r = o.get_config t in (r, got_config r ∷ t);
  new_manager = λ c opts t. let r = o.new_manager t c opts in (r, made_manager c opts r ∷ t);
  get_client = o.get_client;
  get_event_recorder_for = o.get_event_recorder_for;
  complete = λ m b rec t. let r = o.complete t m b rec in (r, completed m b rec r ∷ t);
  add_healthz_check = λ m name k t.
      let r = o.add_healthz_check t m name k in (r, added_healthz_check m name k r ∷ t);
  add_readyz_check =
      λ m name k t. let r = o.add_readyz_check t m name k in (r, added_readyz_check m name k r ∷ t);
  ping = o.ping;
  setup_signal_handler = λ t. let ctx = o.setup_signal_handler t in (ctx, handled_signals ctx ∷ t);
  start = λ m ctx t. let r = o.start t m ctx in (r, started m ctx r ∷ t);
  log_error = λ e message about t. logged_error e message about ∷ t;
  log_info = λ message t. logged_info message ∷ t;
}

-- What ends the program, by the call that it comes from: a Go error exits or panics, and flag.Parse
-- and GetConfigOrDie end the process themselves.
abbrev pub answer_of : {E A : Type 0} → Result E A → Option E
answer_of (ok a) = none
answer_of (err e) = some e

abbrev pub error_of : {E : Type 0} {types : Packages} → Call E types → Option E
error_of (added_client_go s r) = answer_of r
error_of (added_to_scheme b s r) = answer_of r
error_of (made_manager c opts r) = answer_of r
error_of (completed m b rec r) = answer_of r
error_of (added_healthz_check m name k r) = answer_of r
error_of (added_readyz_check m name k r) = answer_of r
error_of (started m ctx r) = answer_of r
error_of _ = none

abbrev pub exit_of : {E : Type 0} {types : Packages} → Call E types → Option (Exit E)
exit_of (parsed fs r) = answer_of r
exit_of (got_config r) = answer_of r
exit_of _ = none

-- No call of the trace has failed.
abbrev pub Calm : {E : Type 0} {types : Packages} → Trace E types → Type 0
Calm [] = Unit {0}
Calm (c ∷ t) = (error_of c ≡ none) × (exit_of c ≡ none) × Calm t
