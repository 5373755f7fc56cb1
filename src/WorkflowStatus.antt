-- ===== src/WorkflowStatus.antt =====
-- operator/internal/controller/workflow_status.go, the mapping of an Argo phase; `WorkflowPhase`,
-- which reads an object through the Kubernetes library, is in Platform.antt.
use fyp.Common.{
  String, Bool, true, false, ◌≡◌, ◌↔◌, ◌⊎◌, inl, inr, arith, eq_iff, ◌==ˢ◌, if◌then◌else◌, ◌||◌,
  Bool-cases,
}
use fyp.Api.TrainingJob.{TrainingJobPhase, running, succeeded, failed}

unfoldable pub map_workflow_phase : String → TrainingJobPhase × Bool
map_workflow_phase wf_phase =
    if wf_phase ==ˢ "Succeeded"
    then (succeeded, true)
    else if wf_phase ==ˢ "Failed" || wf_phase ==ˢ "Error"
    then (failed, true)
    else (running, false)

-- The three answers.
pub map_workflow_phase-cases :
    (wf_phase : String)
    → (map_workflow_phase wf_phase ≡ (succeeded, true))
      ⊎ ((map_workflow_phase wf_phase ≡ (failed, true))
          ⊎ (map_workflow_phase wf_phase ≡ (running, false)))
unfolding map_workflow_phase
map_workflow_phase-cases wf_phase = elim (Bool-cases (wf_phase ==ˢ "Succeeded")) [
  | inl done ↦ inl (rw done)
  | inr other ↦ elim (Bool-cases (wf_phase ==ˢ "Failed" || wf_phase ==ˢ "Error")) [
    | inl lost ↦ inr (inl (rw (other, lost)))
    | inr live ↦ inr (inr (rw (other, live)))
  ]
]

succeeded_apart : (p : String) → p ≡ "Succeeded" → (p ==ˢ "Failed" || p ==ˢ "Error") ≡ false
succeeded_apart p eq = rw eq

-- An Argo phase is terminal exactly if it is Succeeded, Failed or Error; what is not terminal is mapped
-- to Running, Succeeded to Succeeded, and the other two to Failed.
pub map_workflow_phase_lem :
    (p : String)
    → ((map_workflow_phase p).1 ≡ true ↔ (p ≡ "Succeeded") ⊎ ((p ≡ "Failed") ⊎ (p ≡ "Error")))
      × ((map_workflow_phase p).1 ≡ false → (map_workflow_phase p).0 ≡ running)
      × (p ≡ "Succeeded" → (map_workflow_phase p).0 ≡ succeeded)
      × ((p ≡ "Failed") ⊎ (p ≡ "Error") → (map_workflow_phase p).0 ≡ failed)
unfolding map_workflow_phase
map_workflow_phase_lem p = ground (
  arith,
  eq_iff p "Succeeded",
  eq_iff p "Failed",
  eq_iff p "Error",
  eq_iff "Succeeded" "Failed",
  eq_iff "Succeeded" "Error",
  succeeded_apart p,
)
