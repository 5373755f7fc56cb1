-- ===== src/Tests/Boots.antt =====
-- A start-up at which the readiness probe cannot be registered.
use fyp.Common.{ℕ, String, true, [], ◌≡◌, refl}
use fyp.Exec.{Result, ok, err, ◌>>=◌}
use fyp.Trace.{Obeys, Before, here, there}
use fyp.Startup.{
  Packages, Exit, exited, init, checked, set_up_with_manager, run_manager, main, program,
}
use fyp.Startup.Calls.{Trace, Oracle, tracing, logged_error, added_readyz_check}
use fyp.Startup.Rules.{Due, Ending}
use fyp.Startup.Order.{program-Obeys, program_end}

abbrev plain_types : Packages
plain_types = record {
  Scheme = ℕ;
  SchemeBuilder = ℕ;
  Values = Unit {0};
  Config = String;
  Manager = String;
  Client = String;
  Recorder = String;
  Checker = String;
  Context = ℕ;
}

abbrev unready : Oracle String plain_types
unready = record {
  new_scheme = 1;
  new_builder = λ gv. 2;
  register = λ b types. b;
  zap_flags = [];
  text = λ values name. name;
  switch = λ values name. true;
  get_client = λ m. m;
  get_event_recorder_for = λ m name. name;
  add_client_go = λ t s. ok tt;
  add_to_scheme = λ t b s. ok tt;
  parse = λ t flags. ok tt;
  get_config = λ t. ok "cluster";
  new_manager = λ t config opts. ok "manager";
  complete = λ t m b r. ok tt;
  add_healthz_check = λ t m name ping. ok tt;
  add_readyz_check = λ t m name ping. err "taken";
  ping = "pong";
  setup_signal_handler = λ t. 0;
  start = λ t m ctx. ok tt;
}

abbrev boot : Result (Exit String) (Unit {0}) × Trace String plain_types
boot = program (tracing unready) []

boot_calls :
    (boot.0 ≡ err (exited 1))
    × Before (logged_error "taken" "unable to set up ready check" []) boot.1
    × Before (added_readyz_check "manager" "readyz" "pong" (err "taken")) boot.1
unfolding program init main checked run_manager set_up_with_manager ◌>>=◌
boot_calls = (refl, here, there here)

program-Obeys_example : Obeys (Due unready) (program (tracing unready) []).1
program-Obeys_example = program-Obeys unready

program_end_example : Ending (program (tracing unready) [])
program_end_example = program_end unready
