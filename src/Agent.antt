-- ===== src/Agent.antt =====
-- apps/api/src/agent/read-model.ts, placement-model.ts and capacity-model.ts: what the agent
-- answers. A number that the schemas check to be a non-negative integer is an ℕ; `slot` may be
-- negative, so it is a `Slot`. An optional field is an `Option`.
pub mod Errors
pub mod Payload
use docklane.Store.{Availability}
use docklane.Prelude.{
  ℕ, String, Text, Bool, true, false, List, Option, some, ◌≡◌, ◌↔◌, arith, Comparable, ◌==◌, ltb,
  ℕ-eq, nat_eq_iff,
}

-- The integer of `slot`: `from n` is n, and `below n` is -(n + 1).
pub data Slot : Type 0 where
  from below : ℕ → Slot

abbrev slot_eq : Slot → Slot → Bool
slot_eq (from a) (from b) = a == b
slot_eq (below a) (below b) = a == b
slot_eq _ _ = false

pub slot_eq_iff : (a b : Slot) → (slot_eq a b ≡ true) ↔ (a ≡ b)
slot_eq_iff (from a) (from b) = ground (arith, nat_eq_iff a b)
slot_eq_iff (from a) (below b) = ground arith
slot_eq_iff (below a) (from b) = ground arith
slot_eq_iff (below a) (below b) = ground (arith, nat_eq_iff a b)

instance abbrev pub Slot-eq : Comparable Slot
Slot-eq = record { equals = slot_eq; equals_iff = slot_eq_iff }

abbrev pub is_positive : Slot → Bool
is_positive (from n) = ltb 0 n
is_positive (below n) = false

pub record ServiceSummary : Type 0 where
  pub id : String
  pub name : String
  pub version : ℕ
  pub spec_hash : String
  pub force_update : ℕ
  pub task_spec_hash : Option String
  pub runtime_spec_hash : Option String
  pub image : Option Text
  pub mode : String
  pub desired_replicas : ℕ
  pub running_replicas : ℕ
  pub update_state : Option String
  pub update_message : Option String
  pub created_at : String
  pub updated_at : String

pub record TaskSummary : Type 0 where
  pub id : String
  pub service_id : String
  pub spec_hash : String
  pub runtime_spec_hash : String
  pub slot : Slot
  pub node_id : Option String
  pub desired_state : String
  pub state : String
  pub force_update : ℕ
  pub message : Option String
  pub error : Option String
  pub container_id : Option String
  pub image : Option Text
  pub timestamp : String

pub record ServiceDetailResponse : Type 0 where
  pub service : ServiceSummary
  pub tasks : List TaskSummary

pub record ServiceMutationPlan : Type 0 where
  pub service_id : String
  pub version : ℕ
  pub before_spec_hash : String
  pub target_spec_hash : String
  pub target_force_update : ℕ
  pub target_replicas : Option ℕ
  pub target_image : Option Text
  pub target_task_spec_hash : Option String
  pub target_runtime_spec_hash : Option String

-- A plan that sets the image names the image and both hashes.
pub record ServiceImageMutationPlan : Type 0 where
  pub service_id : String
  pub version : ℕ
  pub before_spec_hash : String
  pub target_spec_hash : String
  pub target_force_update : ℕ
  pub target_replicas : Option ℕ
  pub target_image : Text
  pub target_task_spec_hash : String
  pub target_runtime_spec_hash : String

-- An image plan where a plan is expected.
abbrev pub as_plan : ServiceImageMutationPlan → ServiceMutationPlan
as_plan p = record {
  service_id = p.service_id;
  version = p.version;
  before_spec_hash = p.before_spec_hash;
  target_spec_hash = p.target_spec_hash;
  target_force_update = p.target_force_update;
  target_replicas = p.target_replicas;
  target_image = some p.target_image;
  target_task_spec_hash = some p.target_task_spec_hash;
  target_runtime_spec_hash = some p.target_runtime_spec_hash;
}

pub record ServiceMutationResponse : Type 0 where
  pub service_id : String
  pub version : ℕ
  pub target_spec_hash : String
  pub target_force_update : ℕ

pub data PlacementStatus : Type 0 where
  converged pending unknown : PlacementStatus

pub record ServicePlacementResponse : Type 0 where
  pub service_id : String
  pub status : PlacementStatus

pub record CapacityCheckRequest : Type 0 where
  pub expected_version : ℕ
  pub target_replicas : ℕ
  pub include_update_overlap : Bool

pub data CapacityStatus : Type 0 where
  sufficient insufficient unknown : CapacityStatus

pub record CapacityCheckResponse : Type 0 where
  pub service_id : String
  pub status : CapacityStatus
  pub reasons : List String

-- `nanoCpus` and `memoryBytes` are integers of either sign.
pub record NodeSummary : Type 0 where
  pub id : String
  pub version : ℕ
  pub spec_hash : String
  pub hostname : String
  pub address : String
  pub role : String
  pub availability : String
  pub state : String
  pub message : Option String
  pub manager : Bool
  pub leader : Bool
  pub reachability : Option String
  pub engine_version : Option String
  pub nano_cpus : Slot
  pub memory_bytes : Slot
  pub labels : List (String × String)

pub record NodeDetailResponse : Type 0 where
  pub node : NodeSummary
  pub tasks : List TaskSummary
  pub service_ids : List String

-- NodeMutationPlan, and NodeLabelMutationPlan where the labels are there.
pub record NodeMutationPlan : Type 0 where
  pub node_id : String
  pub version : ℕ
  pub before_spec_hash : String
  pub target_spec_hash : String
  pub target_availability : Availability
  pub affected_service_ids : List String
  pub target_labels : Option (List (String × String))

-- The schema refuses the availability `pause` here, so no answer has it.
pub record NodeMutationResponse : Type 0 where
  pub node_id : String
  pub version : ℕ
  pub target_spec_hash : String
  pub target_availability : Availability
