-- ===== src/Store/NodeOperations.antt =====
-- apps/api/src/operations/node-operation.repository.ts: each statement as a function of the tables.
pub mod Rows
use docklane.Prelude.{
  ℕ, String, List, [], ◌∷◌, ◌++◌, ◌&&◌, Option, none, some, ◌==◌, String-eq, find, keep, contains,
  if◌then◌else◌,
}
use docklane.Store.{
  NodeOperationType, OperationStatus, Availability, LabelPatch, NodeOperationRecord, Db,
  is_unresolved,
}

unfoldable pub find_operation : String → Db → Option NodeOperationRecord
unfolding find
find_operation id db = find (λ r. r.id == id) db.node_operations

unfoldable pub list_non_terminal : Db → List NodeOperationRecord
unfolding keep
list_non_terminal db = keep (λ r. is_unresolved r.status) db.node_operations

unfoldable pub find_non_terminal_for_node : String → String → Db → Option NodeOperationRecord
unfolding find
find_non_terminal_for_node cluster_id node_id db =
    find (λ r. r.cluster_id == cluster_id && r.node_id == node_id && is_unresolved r.status)
      db.node_operations

-- JSON_CONTAINS(affected_service_ids, JSON_QUOTE(?), '$')
unfoldable pub find_non_terminal_affecting_service :
    String → String → Db → Option NodeOperationRecord
unfolding find contains
find_non_terminal_affecting_service cluster_id service_id db =
    find
      (λ r.
        r.cluster_id == cluster_id
        && is_unresolved r.status
        && contains r.affected_service_ids service_id)
      db.node_operations

pub record NewNodeOperation : Type 0 where
  pub id : String
  pub cluster_id : String
  pub node_id : String
  pub type : NodeOperationType
  pub actor_id : String
  pub expected_version : ℕ
  pub before_spec_hash : String
  pub target_spec_hash : String
  pub target_availability : Availability
  pub affected_service_ids : List String
  pub target_labels : Option (List (String × String))
  pub label_patch : Option LabelPatch

abbrev pub new_row : NewNodeOperation → NodeOperationRecord
new_row n = record {
  id = n.id;
  cluster_id = n.cluster_id;
  node_id = n.node_id;
  type = n.type;
  status = OperationStatus.pending;
  actor_id = n.actor_id;
  expected_version = n.expected_version;
  before_spec_hash = n.before_spec_hash;
  target_spec_hash = n.target_spec_hash;
  target_availability = n.target_availability;
  target_labels = n.target_labels;
  label_patch = n.label_patch;
  affected_service_ids = n.affected_service_ids;
  result_version = none;
  error_code = none;
  error_message = none;
}

unfoldable pub create : NewNodeOperation → Db → Option Db
unfolding find_operation
create n db = elim (find_operation n.id db) [
  | none ↦ some (record db { node_operations = db.node_operations ++ new_row n ∷ [] })
  | some _ ↦ none
]

-- UPDATE node_operations SET … WHERE id = ? AND status NOT IN ('SUCCESS', 'FAILED')
unfoldable pub update_rows :
    String
    → (NodeOperationRecord → NodeOperationRecord)
    → List NodeOperationRecord
    → List NodeOperationRecord
update_rows id f [] = []
update_rows id f (r ∷ rs) =
    (if r.id == id && is_unresolved r.status then f r else r) ∷ update_rows id f rs

abbrev update_open : String → (NodeOperationRecord → NodeOperationRecord) → Db → Db
unfolding update_rows
update_open id f db = record db { node_operations = update_rows id f db.node_operations }

unfoldable pub mark_running : String → Db → Db
unfolding update_rows
mark_running id = update_open id (λ r. record r { status = OperationStatus.running })

unfoldable pub mark_verifying : String → ℕ → Db → Db
unfolding update_rows
mark_verifying id result_version = update_open id λ r. record r {
  status = OperationStatus.verifying;
  result_version = some result_version;
  error_code = none;
  error_message = none;
}

unfoldable pub mark_success : String → ℕ → Db → Db
unfolding update_rows
mark_success id result_version = update_open id λ r. record r {
  status = OperationStatus.success;
  result_version = some result_version;
  error_code = none;
  error_message = none;
}

unfoldable pub mark_failed : String → String → String → Db → Db
unfolding update_rows
mark_failed id code message = update_open id λ r. record r {
  status = OperationStatus.failed;
  error_code = some code;
  error_message = some message;
}

unfoldable pub mark_needs_attention : String → String → String → Db → Db
unfolding update_rows
mark_needs_attention id code message = update_open id λ r. record r {
  status = OperationStatus.needs_attention;
  error_code = some code;
  error_message = some message;
}
