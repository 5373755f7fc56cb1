-- ===== src/Startup.antt =====
-- operator/cmd/main.go, with what it runs at start-up: operator/api/v1alpha1/groupversion_info.go, the
-- init functions of the API types, and `SetupWithManager` of
-- operator/internal/controller/trainingjob_controller.go. The packages flag, zap, client-go and
-- controller-runtime are a parameter.
pub mod Calls
pub mod Rules
pub mod Order
use fyp.Common.{ℕ, String, Bool, false, List, [], ◌∷◌, ◌++◌}
use fyp.Exec.{Exec, Result, ok, err, pure, raise, effect, total, ◌>>=◌, ◌>>◌}
use fyp.WorkflowBuilder.{GroupVersionKind, workflow_gvk, default_template_name}

pub record GroupVersion : Type 0 where
  pub group : String
  pub version : String

abbrev pub group_version : GroupVersion
group_version = record { group = "mlplatform.fyp.io"; version = "v1alpha1" }

-- The Go types that are registered for the group.
pub data ApiType : Type 0 where
  training_job training_job_list gpu_quota gpu_quota_list : ApiType

-- flag.StringVar and flag.BoolVar: name, default, usage
pub data Flag : Type 0 where
  string_var : String → String → String → Flag
  bool_var : String → Bool → String → Flag

-- ctrl.Options
pub record ManagerOptions (Scheme : Type 0) : Type 0 where
  pub scheme : Scheme
  pub metrics_bind_address : String
  pub health_probe_bind_address : String
  pub leader_election : Bool
  pub leader_election_id : String

pub record TrainingJobReconciler (Client Recorder : Type 0) : Type 0 where
  pub client : Client
  pub recorder : Recorder
  pub template_name : String

-- What the builder of a controller is told: For, Owns, Named.
pub record ControllerBuild : Type 0 where
  pub for_type : ApiType
  pub owns : GroupVersionKind
  pub named : String

-- How a process may end before `main` returns.
pub data Exit (E : Type 0) : Type 0 where
  panicked : E → Exit E
  exited : ℕ → Exit E

-- The types of the packages. A scheme is a pointer: what is added to it is part of the state outside.
pub record Packages : Type 1 where
  pub Scheme : Type 0
  pub SchemeBuilder : Type 0
  pub Values : Type 0
  pub Config : Type 0
  pub Manager : Type 0
  pub Client : Type 0
  pub Recorder : Type 0
  pub Checker : Type 0
  pub Context : Type 0

-- Their functions. A Go error is of the type `E`.
pub record Runtime (E W : Type 0) (types : Packages) : Type 0 where
  pub new_scheme : types.Scheme
  pub new_builder : GroupVersion → types.SchemeBuilder
  pub register : types.SchemeBuilder → List ApiType → types.SchemeBuilder
  pub add_to_scheme : types.SchemeBuilder → types.Scheme → Exec W E (Unit {0})
  pub add_client_go : types.Scheme → Exec W E (Unit {0})
  -- utilruntime.Must
  pub must : Result E (Unit {0}) → Exec W (Exit E) (Unit {0})
  -- zap.Options.BindFlags, flag.Parse, and the values of the flags
  pub zap_flags : List Flag
  pub parse : List Flag → Exec W (Exit E) types.Values
  pub text : types.Values → String → String
  pub switch : types.Values → String → Bool
  -- ctrl.SetLogger, with a zap logger of these flags and Development
  pub set_logger : types.Values → W → W
  pub get_config_or_die : Exec W (Exit E) types.Config
  pub new_manager : types.Config → ManagerOptions types.Scheme → Exec W E types.Manager
  pub get_client : types.Manager → types.Client
  pub get_event_recorder_for : types.Manager → String → types.Recorder
  pub complete :
      types.Manager
      → ControllerBuild
      → TrainingJobReconciler types.Client types.Recorder
      → Exec W E (Unit {0})
  -- healthz.Ping
  pub ping : types.Checker
  pub add_healthz_check : types.Manager → String → types.Checker → Exec W E (Unit {0})
  pub add_readyz_check : types.Manager → String → types.Checker → Exec W E (Unit {0})
  pub setup_signal_handler : W → types.Context × W
  pub start : types.Manager → types.Context → Exec W E (Unit {0})
  pub log_error : E → String → List (String × String) → W → W
  pub log_info : String → W → W

-- The flags of `main`.
abbrev pub main_flags : List Flag
main_flags =
    string_var "metrics-bind-address" ":8080" "The address the metrics endpoint binds to."
    ∷ string_var "health-probe-bind-address" ":8081" "The address the probe endpoint binds to."
    ∷ bool_var "leader-elect" false "Enable leader election for controller manager."
    ∷ string_var "workflow-template" default_template_name
        "Name of the Argo WorkflowTemplate (in each TrainingJob's namespace) submitted Workflows reference."
    ∷ []

abbrev pub controller_build : ControllerBuild
controller_build = record { for_type = training_job; owns = workflow_gvk; named = "trainingjob" }

module _ {E W : Type 0} {types : Packages} (rt : Runtime E W types) where
  -- SchemeBuilder, as the init functions of gpuquota_types.go and trainingjob_types.go leave it.
  abbrev pub init_gpu_quota : types.SchemeBuilder → types.SchemeBuilder
  init_gpu_quota builder = rt.register builder (gpu_quota ∷ gpu_quota_list ∷ [])

  abbrev pub init_training_job : types.SchemeBuilder → types.SchemeBuilder
  init_training_job builder = rt.register builder (training_job ∷ training_job_list ∷ [])

  abbrev pub scheme_builder : types.SchemeBuilder
  scheme_builder = init_training_job (init_gpu_quota (rt.new_builder group_version))

  -- `err := m`, with the error looked at by the code that follows
  abbrev pub attempt : {A : Type 0} → Exec W E A → Exec W (Exit E) (Result E A)
  attempt m w = let (r, w') = m w in (ok r, w')

  -- `init` of main.go
  unfoldable pub init : Exec W (Exit E) (Unit {0})
  init = do
    client_go ← attempt (rt.add_client_go rt.new_scheme)
    rt.must client_go
    own ← attempt (rt.add_to_scheme scheme_builder rt.new_scheme)
    rt.must own

  -- `if err != nil { setupLog.Error(err, message, about…); os.Exit(1) }`
  unfoldable pub checked :
      {A : Type 0} → String → List (String × String) → Result E A → Exec W (Exit E) A
  checked message about (ok a) = pure a
  checked message about (err e) = do effect (rt.log_error e message about); raise (exited 1)

  abbrev pub manager_options : types.Values → ManagerOptions types.Scheme
  manager_options values = record {
    scheme = rt.new_scheme;
    metrics_bind_address = rt.text values "metrics-bind-address";
    health_probe_bind_address = rt.text values "health-probe-bind-address";
    leader_election = rt.switch values "leader-elect";
    leader_election_id = "mlplatform.fyp.io";
  }

  abbrev pub reconciler_of :
      types.Manager → types.Values → TrainingJobReconciler types.Client types.Recorder
  reconciler_of mgr values = record {
    client = rt.get_client mgr;
    recorder = rt.get_event_recorder_for mgr "ml-operator";
    template_name = rt.text values "workflow-template";
  }

  unfoldable pub set_up_with_manager :
      TrainingJobReconciler types.Client types.Recorder → types.Manager → Exec W E (Unit {0})
  set_up_with_manager r mgr = rt.complete mgr controller_build r

  -- `main`, from the manager on.
  unfoldable pub run_manager : types.Values → types.Manager → Exec W (Exit E) (Unit {0})
  unfolding checked set_up_with_manager
  run_manager values mgr = do
    controller ← attempt (set_up_with_manager (reconciler_of mgr values) mgr)
    checked "unable to create controller" (("controller", "TrainingJob") ∷ []) controller
    healthz ← attempt (rt.add_healthz_check mgr "healthz" rt.ping)
    checked "unable to set up health check" [] healthz
    readyz ← attempt (rt.add_readyz_check mgr "readyz" rt.ping)
    checked "unable to set up ready check" [] readyz
    effect (rt.log_info "starting manager")
    context ← total rt.setup_signal_handler
    stopped ← attempt (rt.start mgr context)
    checked "problem running manager" [] stopped

  unfoldable pub main : Exec W (Exit E) (Unit {0})
  unfolding checked run_manager
  main = do
    values ← rt.parse (main_flags ++ rt.zap_flags)
    effect (rt.set_logger values)
    config ← rt.get_config_or_die
    made ← attempt (rt.new_manager config (manager_options values))
    mgr ← checked "unable to start manager" [] made
    run_manager values mgr

  -- The whole program.
  unfoldable pub program : Exec W (Exit E) (Unit {0})
  unfolding init main
  program = do init; main
