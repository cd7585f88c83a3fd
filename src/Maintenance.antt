-- ===== src/Maintenance.antt =====
-- The maintenance of a cluster, apps/api/src/clusters: the rows that its tables keep. The columns
-- `created_at` and `updated_at` are not kept: rows stand in the order of their insertion.
pub mod Input
pub mod Statements
pub mod Lease
pub mod Repository
pub mod Journal
pub mod Admission
pub mod Cycle
pub mod Writes
pub mod Keeps
pub mod Runs
pub mod Followed
pub mod Fencing
pub mod Live
pub mod Phases
pub mod Evidence
pub mod Unsent
pub mod Sent
pub mod Closed
use docklane.Prelude.{ℕ, String, Option}
use docklane.Prelude.Json.{Json}

-- 'OPEN' is `opened`.
pub data MaintenanceState : Type 0 where
  opened closing closed reconciling : MaintenanceState

-- The argument `from` of commitRecoveryTransition, 'CLOSED' or 'RECONCILING'.
pub data RecoveryOrigin : Type 0 where
  from_closed from_reconciling : RecoveryOrigin

-- apps/api/src/clusters/cluster-registration.types.ts: what the binding of the cluster reads.
pub record ClusterRegistration : Type 0 where
  pub cluster_id : String
  pub swarm_cluster_id : String

pub record MaintenanceRecord : Type 0 where
  pub cluster_id : String
  pub state : MaintenanceState
  pub generation : ℕ
  pub owner_id : String
  pub reason : String
  pub changed_by : String
  pub changed_at : ℕ

pub record ControlLease : Type 0 where
  pub cluster_id : String
  pub holder_id : String
  pub fence_token : ℕ
  pub expires_at : ℕ

-- What the holder of a lease has in its hands.
pub record MaintenanceLease : Type 0 where
  pub cluster_id : String
  pub holder_id : String
  pub token : ℕ

pub record ActiveAdmission : Type 0 where
  pub id : String
  pub cluster_id : String
  pub generation : ℕ
  pub owner_id : String
  pub resource_type : String
  pub resource_id : String
  pub operation_id : Option String

pub data DispatchPhase : Type 0 where
  prepared sending acknowledged rejected uncertain : DispatchPhase

pub record MaintenanceDispatch : Type 0 where
  pub id : String
  pub cluster_id : String
  pub generation : ℕ
  pub agent_id : String
  pub operation_id : String
  pub phase : DispatchPhase

pub data BarrierState : Type 0 where
  pending acknowledged : BarrierState

pub record AgentBarrier : Type 0 where
  pub cluster_id : String
  pub agent_id : String
  pub generation : ℕ
  pub state : BarrierState

pub data EvidenceType : Type 0 where
  dispatch admission : EvidenceType

pub record EvidenceResolution : Type 0 where
  pub id : String
  pub cluster_id : String
  pub evidence_type : EvidenceType
  pub evidence_id : String
  pub actor_id : String
  pub reason : String
  pub evidence_json : Json
