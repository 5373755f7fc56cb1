-- ===== src/Api/Conditions.antt =====
-- operator/api/v1alpha1/conditions.go: the condition types and reasons. `Condition` has the fields
-- of metav1.Condition that the operator fills in.
use fyp.Common.{ℕ, String}

pub data ConditionStatus : Type 0 where
  condition_true condition_false condition_unknown : ConditionStatus

pub record Condition : Type 0 where
  pub type : String
  pub status : ConditionStatus
  pub reason : String
  pub message : String
  pub observed_generation : ℕ

abbrev pub condition_quota_granted : String
condition_quota_granted = "QuotaGranted"

abbrev pub condition_workflow_submitted : String
condition_workflow_submitted = "WorkflowSubmitted"

abbrev pub condition_complete : String
condition_complete = "Complete"

abbrev pub reason_quota_available : String
reason_quota_available = "QuotaAvailable"

abbrev pub reason_quota_exceeded : String
reason_quota_exceeded = "QuotaExceeded"

abbrev pub reason_workflow_submitted : String
reason_workflow_submitted = "WorkflowSubmitted"

abbrev pub reason_training_succeeded : String
reason_training_succeeded = "TrainingSucceeded"

abbrev pub reason_backoff_limit_exceeded : String
reason_backoff_limit_exceeded = "BackoffLimitExceeded"
