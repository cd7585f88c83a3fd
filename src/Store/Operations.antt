-- ===== src/Store/Operations.antt =====
-- apps/api/src/operations/operation.repository.ts: each statement as a function of the tables.
pub mod Rows
use docklane.Prelude.{
  ℕ, String, Text, List, [], ◌∷◌, ◌++◌, Bool, ◌&&◌, Option, none, some, ◌==◌, String-eq, Option-eq,
  find, keep, if◌then◌else◌,
}
use docklane.Prelude.Json.{Json}
use docklane.Store.{OperationType, OperationStatus, OperationRecord, AuditEvent, Db, is_unresolved}

-- SELECT * FROM operations WHERE id = ? LIMIT 1
unfoldable pub find_operation : String → Db → Option OperationRecord
unfolding find
find_operation id db = find (λ r. r.id == id) db.operations

unfoldable pub list_non_terminal : Db → List OperationRecord
unfolding keep
list_non_terminal db = keep (λ r. is_unresolved r.status) db.operations

unfoldable pub find_non_terminal_for_service : String → String → Db → Option OperationRecord
unfolding find
find_non_terminal_for_service cluster_id service_id db =
    find (λ r. r.cluster_id == cluster_id && r.service_id == service_id && is_unresolved r.status)
      db.operations

pub record NewOperation : Type 0 where
  pub id : String
  pub cluster_id : String
  pub service_id : String
  pub type : OperationType
  pub actor_id : String
  pub expected_version : ℕ
  pub before_spec_hash : String
  pub target_spec_hash : String
  pub target_force_update : ℕ
  pub target_replicas : Option ℕ
  pub target_image : Option Text
  pub target_task_spec_hash : Option String
  pub target_runtime_spec_hash : Option String

abbrev pub new_row : NewOperation → OperationRecord
new_row n = record {
  id = n.id;
  cluster_id = n.cluster_id;
  service_id = n.service_id;
  type = n.type;
  status = OperationStatus.pending;
  actor_id = n.actor_id;
  expected_version = n.expected_version;
  before_spec_hash = n.before_spec_hash;
  target_spec_hash = n.target_spec_hash;
  target_force_update = n.target_force_update;
  target_replicas = n.target_replicas;
  target_image = n.target_image;
  target_task_spec_hash = n.target_task_spec_hash;
  target_runtime_spec_hash = n.target_runtime_spec_hash;
  result_version = none;
  error_code = none;
  error_message = none;
}

-- The insertion is refused where the primary key is taken.
unfoldable pub create : NewOperation → Db → Option Db
unfolding find_operation
create n db = elim (find_operation n.id db) [
  | none ↦ some (record db { operations = db.operations ++ new_row n ∷ [] })
  | some _ ↦ none
]

-- UPDATE operations SET … WHERE id = ? AND …
unfoldable pub update_rows :
    (OperationRecord → Bool)
    → (OperationRecord → OperationRecord)
    → List OperationRecord
    → List OperationRecord
update_rows p f [] = []
update_rows p f (r ∷ rs) = (if p r then f r else r) ∷ update_rows p f rs

-- The condition of the updates of the status: WHERE id = ? AND status NOT IN ('SUCCESS', 'FAILED')
abbrev pub is_open : String → OperationRecord → Bool
is_open id r = r.id == id && is_unresolved r.status

abbrev update_open : String → (OperationRecord → OperationRecord) → Db → Db
unfolding update_rows
update_open id f db = record db { operations = update_rows (is_open id) f db.operations }

abbrev lacks_runtime : String → OperationRecord → Bool
lacks_runtime id r = r.id == id && r.target_runtime_spec_hash == none

unfoldable pub backfill_target_runtime_spec_hash : String → String → Db → Db
unfolding update_rows
backfill_target_runtime_spec_hash id hash db = record db {
  operations =
      update_rows (lacks_runtime id) (λ r. record r { target_runtime_spec_hash = some hash })
        db.operations;
}

unfoldable pub mark_running : String → Db → Db
unfolding update_rows
mark_running id = update_open id (λ r. record r { status = OperationStatus.running })

unfoldable pub mark_verifying : String → ℕ → Db → Db
unfolding update_rows
mark_verifying id result_version = update_open id λ r. record r {
  status = OperationStatus.verifying;
  result_version = some result_version;
  error_code = none;
  error_message = none;
}

unfoldable pub mark_verification_pending : String → String → String → Db → Db
unfolding update_rows
mark_verification_pending id code message = update_open id λ r. record r {
  status = OperationStatus.verifying;
  error_code = some code;
  error_message = some message;
}

unfoldable pub mark_success : String → ℕ → Db → Db
unfolding update_rows
mark_success id result_version = update_open id λ r. record r {
  status = OperationStatus.success;
  result_version = some result_version;
  error_code = none;
  error_message = none;
}

unfoldable pub mark_needs_attention : String → String → String → Db → Db
unfolding update_rows
mark_needs_attention id code message = update_open id λ r. record r {
  status = OperationStatus.needs_attention;
  error_code = some code;
  error_message = some message;
}

unfoldable pub mark_failed : String → String → String → Db → Db
unfolding update_rows
mark_failed id code message = update_open id λ r. record r {
  status = OperationStatus.failed;
  error_code = some code;
  error_message = some message;
}

unfoldable pub audit : AuditEvent → Db → Db
audit event db = record db { audit_events = db.audit_events ++ event ∷ [] }

-- The event of a service: `resourceType` and `resourceId` take their defaults.
abbrev pub service_event :
    String → String → String → String → String → Option Json → Option Json → AuditEvent
service_event operation_id actor_id cluster_id service_id action before_json after_json = record {
  operation_id = operation_id;
  actor_id = actor_id;
  cluster_id = cluster_id;
  service_id = service_id;
  resource_type = "service";
  resource_id = service_id;
  action = action;
  before_json = before_json;
  after_json = after_json;
}
