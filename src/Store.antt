-- ===== src/Store.antt =====
-- The rows that the control plane keeps: apps/api/src/operations/operation.types.ts and
-- apps/api/src/deployments/deployment.types.ts. Rows stand in the order of their insertion, which
-- is the order of `created_at`. The columns `updated_at` and `started_at` are not kept: no code
-- reads them.
pub mod Operations
pub mod NodeOperations
pub mod Deployments
use docklane.Prelude.{ℕ, String, Text, Bool, true, false, List, Option}
use docklane.Prelude.Json.{Json}
use docklane.Maintenance.{
  ClusterRegistration, MaintenanceRecord, ControlLease, ActiveAdmission, MaintenanceDispatch,
  AgentBarrier, EvidenceResolution,
}

pub data OperationType : Type 0 where
  scale restart deploy rollback : OperationType

pub data OperationStatus : Type 0 where
  pending running verifying success failed needs_attention : OperationStatus

pub record OperationRecord : Type 0 where
  pub id : String
  pub cluster_id : String
  pub service_id : String
  pub type : OperationType
  pub status : OperationStatus
  pub actor_id : String
  pub expected_version : ℕ
  pub before_spec_hash : String
  pub target_spec_hash : String
  pub target_force_update : ℕ
  pub target_replicas : Option ℕ
  pub target_image : Option Text
  pub target_task_spec_hash : Option String
  pub target_runtime_spec_hash : Option String
  pub result_version : Option ℕ
  pub error_code : Option String
  pub error_message : Option String

pub record AuditEvent : Type 0 where
  pub operation_id : String
  pub actor_id : String
  pub cluster_id : String
  pub service_id : String
  pub resource_type : String
  pub resource_id : String
  pub action : String
  pub before_json : Option Json
  pub after_json : Option Json

pub data DeploymentStatus : Type 0 where
  deploying verifying success failed rolling_back rollback_verifying rolled_back : DeploymentStatus
  rollback_failed needs_attention : DeploymentStatus

pub data DeploymentKind : Type 0 where
  deploy historical_redeploy : DeploymentKind

pub record HealthCheckConfig : Type 0 where
  pub url : String
  pub interval_ms : ℕ
  pub timeout_ms : ℕ
  pub retries : ℕ
  pub stability_window_ms : ℕ
  pub expected_status : ℕ

pub record DeploymentRecord : Type 0 where
  pub id : String
  pub kind : DeploymentKind
  pub source_deployment_id : Option String
  pub release_id : String
  pub previous_release_id : Option String
  pub deployment_target_id : String
  pub operation_id : String
  pub rollback_operation_id : Option String
  pub status : DeploymentStatus
  pub reason : Option String
  pub no_op : Bool
  pub before_spec : Json
  pub target_spec : Json
  pub health : HealthCheckConfig
  pub expected_service_version : ℕ
  pub finished_at : Option ℕ
  pub created_by : String
  pub created_at : ℕ

pub data NodeOperationType : Type 0 where
  drain activate labels : NodeOperationType

pub data Availability : Type 0 where
  drain active pause : Availability

pub record LabelPatch : Type 0 where
  pub set : List (String × String)
  pub remove : List String

pub record NodeOperationRecord : Type 0 where
  pub id : String
  pub cluster_id : String
  pub node_id : String
  pub type : NodeOperationType
  pub status : OperationStatus
  pub actor_id : String
  pub expected_version : ℕ
  pub before_spec_hash : String
  pub target_spec_hash : String
  pub target_availability : Availability
  pub target_labels : Option (List (String × String))
  pub label_patch : Option LabelPatch
  pub affected_service_ids : List String
  pub result_version : Option ℕ
  pub error_code : Option String
  pub error_message : Option String

pub record RollbackAttempt : Type 0 where
  pub operation_id : String
  pub deployment_id : String

-- apps/api/src/releases/release.types.ts
pub record DeploymentTargetRecord : Type 0 where
  pub id : String
  pub application_id : String
  pub cluster_id : String
  pub environment : String
  pub docker_service_id : String
  pub service_name : String

pub record ReleaseRecord : Type 0 where
  pub id : String
  pub application_id : String
  pub version : String
  pub image_repository : Text
  pub image_tag : Option String
  pub image_digest : Text
  pub git_commit : Option String
  pub build_number : Option String
  pub created_by : String

-- The tables of the database.
pub record Db : Type 0 where
  pub operations : List OperationRecord
  pub node_operations : List NodeOperationRecord
  pub deployments : List DeploymentRecord
  pub rollback_attempts : List RollbackAttempt
  pub audit_events : List AuditEvent
  pub deployment_targets : List DeploymentTargetRecord
  pub releases : List ReleaseRecord
  pub cluster_registrations : List ClusterRegistration
  pub maintenance_states : List MaintenanceRecord
  pub control_leases : List ControlLease
  pub active_admissions : List ActiveAdmission
  pub maintenance_dispatches : List MaintenanceDispatch
  pub agent_barriers : List AgentBarrier
  pub evidence_resolutions : List EvidenceResolution

-- The statuses that end an operation, and those of a `status IN (…)` list of the unresolved ones.
abbrev pub is_final : OperationStatus → Bool
is_final success = true
is_final failed = true
is_final _ = false

abbrev pub is_unresolved : OperationStatus → Bool
is_unresolved success = false
is_unresolved failed = false
is_unresolved _ = true
