-- ===== src/Lib.antt =====
-- The ML platform's Kubernetes operator, operator/ of the repository: a controller that runs each
-- TrainingJob of a namespace as Argo Workflows, one per attempt, within the namespace's GPUQuota.
--
-- The parts and how they interact. controller-runtime calls `Reconcile` with the name of a job. One run
-- reads the job, and then either releases the finalizer of a job that is being deleted, or adds the
-- finalizer, or handles the time to live of a terminal job, or advances the job: through the quota
-- gate, which sums the GPUs of the Running jobs, to the Workflow of the attempt, which is created or
-- whose Argo phase is propagated to the job's status. Status writes refresh the status of the quota.
--
-- Which file models what:
--   Api/TrainingJob, Api/GpuQuota, Api/Conditions: operator/api/v1alpha1/trainingjob_types.go,
--     gpuquota_types.go and conditions.go; Go structs are records, the phase is a data type.
--   Quota: UsedGPUs and CountQueued of operator/internal/controller/quota.go.
--   WorkflowStatus: MapWorkflowPhase of operator/internal/controller/workflow_status.go.
--   WorkflowBuilder: operator/internal/controller/workflow_builder.go. Its child Manifest reads the
--     rendered object as Argo does, and has what each field is to be, in plain texts.
--   Controller: operator/internal/controller/trainingjob_controller.go. Controller/Reconcile has
--     `Reconcile` down to the quota gate and the finalizer, Controller/QuotaGate `quotaGate`,
--     Controller/Workflows the rest of `Reconcile`, Controller/Ttl `reconcileTTL` and
--     `deleteOwnedWorkflows`, Controller/Status `updateQuotaStatus` and `setCondition`. Each function
--     of the source that branches on the error of a call is cut there: the part behind the call is a
--     definition by clauses on the call's answer. The job, which the source changes in place, is
--     passed on as a value.
--   Exec: code that changes the outside and returns a Go error. GoTime: time.Time and time.Duration.
--   Common: tests on numbers, int32 and int64, texts, the decimal print of int32.
--   Platform: what the operator only calls. `Library` has the functions of apimachinery and
--     controller-runtime that the source calls, `Client` the API server, the clock and the event
--     recorder. Both are parameters of every definition; no law of theirs is assumed except where a
--     theorem says so.
--   Trace: an oracle answers each call by any function of the calls before it, and the trace keeps
--     the calls with their answers. It stands for every API server, with failures, stale reads,
--     conflicts, and the writes of other clients between two calls.
--   Lifecycle: the state machine of a job as a step relation, and its invariant.
--   Protocol: which call a run may make, and after which calls; its children follow the functions of
--     Controller. Guarantees: what follows from the protocol for the whole operator; its Namespace has
--     the jobs of a namespace under any sequence of runs, which its one worker keeps apart; its Start,
--     Park, Progress and Release compute runs in which the API server answers as the job needs it,
--     and its Report one refresh of the quota's status.
--   Convergence: an abstract machine on the stage of a job, of which one run of `Reconcile` is a step
--     (Refinement), and repeated runs up to the job's end (Termination), with a bound on their
--     number: what a job waits for comes within `d` runs, twice for each attempt.
--   Memory, DeepCopy: operator/api/v1alpha1/zz_generated.deepcopy.go over a memory of cells, with
--     pointers, maps and slices as addresses. Memory/Shape says where a value lies and what it stands
--     for, DeepCopy/Structs and DeepCopy/Objects have the functions of the file, DeepCopy/Views says
--     what each struct stands for. metav1's types and their methods are parameters.
--   Startup: operator/cmd/main.go, operator/api/v1alpha1/groupversion_info.go, the init functions of the
--     API types, and SetupWithManager; its Calls answers by an oracle, as Trace does.
--   Tests: a concrete library, oracles, runs, and the theorems applied to them.
--
-- Numbers. An int32 is its bit pattern, a number below 2 ^ 32, with wrap-around and the signed order
-- written out. A time is a number of nanoseconds, a duration an int64 with wrap-around; time.Sub
-- saturates. Loops are structural recursions on the list; the print of an int32 has fuel for the ten
-- digits of a number below 2 ^ 32, the source's range.
--
-- Not modelled: the log lines of the reconciler, which nothing reads; the caches, queues and workers of
-- controller-runtime, which decide when `Reconcile` is called and are not in the repository; the
-- Python and shell programs and the configuration in the other directories of the repository.
pub mod Common
pub mod Api
pub mod Quota
pub mod WorkflowStatus
pub mod WorkflowBuilder
pub mod Platform
pub mod Exec
pub mod GoTime
pub mod Controller
pub mod Trace
pub mod Lifecycle
pub mod Protocol
pub mod Guarantees
pub mod Startup
pub mod Memory
pub mod Convergence
pub mod DeepCopy
pub mod Tests
