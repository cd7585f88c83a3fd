-- ===== src/Traces.antt =====
-- What the tables keep of the requests that were made: the row of each request stays, with the columns
-- that no update changes, and what an invariant must survive to hold of every method.
use docklane.Prelude.{
  ◌≡◌, refl, ◌∙◌, String, Bool, true, false, [], ◌∷◌, ◌++◌, none, some, ap, find, ◌==◌, String-eq,
  if◌then◌else◌,
}
use docklane.Store.{OperationRecord, NodeOperationRecord, AuditEvent, Db}
use docklane.Store.Operations
use docklane.Store.Operations.{NewOperation, create, find_operation, update_rows, is_open}
use docklane.Store.Operations.Rows.{find_operation-update, find_operation-create_found, create-inv}
use docklane.Store.NodeOperations
use docklane.Store.NodeOperations.{NewNodeOperation}
use docklane.Store.NodeOperations.Rows
use docklane.Exec.{Dispatch, NodeDispatch, Requests, named_services}

-- The columns of an operation that no update changes.
pub record SameIntent (a b : OperationRecord) : Type 0 where
  pub id : a.id ≡ b.id
  pub service_id : a.service_id ≡ b.service_id
  pub expected_version : a.expected_version ≡ b.expected_version
  pub before_spec_hash : a.before_spec_hash ≡ b.before_spec_hash
  pub target_spec_hash : a.target_spec_hash ≡ b.target_spec_hash
  pub target_replicas : a.target_replicas ≡ b.target_replicas

pub record SameNodeIntent (a b : NodeOperationRecord) : Type 0 where
  pub id : a.id ≡ b.id
  pub node_id : a.node_id ≡ b.node_id
  pub type : a.type ≡ b.type
  pub expected_version : a.expected_version ≡ b.expected_version
  pub before_spec_hash : a.before_spec_hash ≡ b.before_spec_hash
  pub target_spec_hash : a.target_spec_hash ≡ b.target_spec_hash
  pub target_labels : a.target_labels ≡ b.target_labels
  pub affected_service_ids : a.affected_service_ids ≡ b.affected_service_ids

-- `Q` survives each update of an operation that is open, and each event.
pub record Stable (Q : Requests → Db → Type 0) : Type 0 where
  pub updates :
      (id : String) (f : OperationRecord → OperationRecord)
      → ((r : OperationRecord) → SameIntent (f r) r)
      → (l : Requests) (db : Db) → Q l db
      → Q l (record db { operations = update_rows (is_open id) f db.operations })
  pub node_updates :
      (id : String) (f : NodeOperationRecord → NodeOperationRecord)
      → ((r : NodeOperationRecord) → SameNodeIntent (f r) r)
      → (l : Requests) (db : Db) → Q l db
      → Q l (record db { node_operations = NodeOperations.update_rows id f db.node_operations })
  pub audits :
      (event : AuditEvent) (l : Requests) (db : Db) → Q l db → Q l (Operations.audit event db)

-- A statement that keeps `Q`.
abbrev pub Kept : (Requests → Db → Type 0) → (Db → Db) → Type 0
Kept Q g = (l : Requests) (db : Db) → Q l db → Q l (g db)

-- A row of the table stands for the request: it has its identifier, its version and its hashes.
pub record Recorded (d : Dispatch) (db : Db) : Type 0 where
  pub row : OperationRecord
  pub found : find_operation d.operation_id db ≡ some row
  pub expected_version : row.expected_version ≡ d.expected_version
  pub before_spec_hash : row.before_spec_hash ≡ d.expected_spec_hash
  pub target_spec_hash : row.target_spec_hash ≡ d.target_spec_hash
  pub replicas : row.target_replicas ≡ d.replicas

-- The same for a request that changes a node.
pub record NodeRecorded (d : NodeDispatch) (db : Db) : Type 0 where
  pub row : NodeOperationRecord
  pub found : NodeOperations.find_operation d.operation_id db ≡ some row
  pub type : row.type ≡ d.type
  pub expected_version : row.expected_version ≡ d.expected_version
  pub before_spec_hash : row.before_spec_hash ≡ d.expected_spec_hash
  pub target_spec_hash : row.target_spec_hash ≡ d.target_spec_hash
  pub target_labels : row.target_labels ≡ d.target_labels
  pub services : named_services row.type row.affected_service_ids ≡ d.expected_service_ids

-- What is asked of an invariant for it to survive a new operation and its request. `Ready` is what
-- the absence of a row says of the requests.
pub record Admits (Ready NodeReady : String → Requests → Type 0) (Q : Requests → Db → Type 0)
    : Type 0 where
  pub stable : Stable Q
  pub creates :
      (n : NewOperation) (l : Requests) (db db' : Db) → Q l db → create n db ≡ some db' → Q l db'
  pub node_creates :
      (n : NewNodeOperation) (l : Requests) (db db' : Db)
      → Q l db
      → NodeOperations.create n db ≡ some db'
      → Q l db'
  pub ready :
      (id : String) (l : Requests) (db : Db) → Q l db → find_operation id db ≡ none → Ready id l
  pub node_ready :
      (id : String) (l : Requests) (db : Db)
      → Q l db
      → NodeOperations.find_operation id db ≡ none
      → NodeReady id l
  pub sent :
      (d : Dispatch) (l : Requests) (db : Db)
      → Q l db
      → Recorded d db
      → Ready d.operation_id l
      → Q (record l { services = l.services ++ d ∷ [] }) db
  pub node_sent :
      (d : NodeDispatch) (l : Requests) (db : Db)
      → Q l db
      → NodeRecorded d db
      → NodeReady d.operation_id l
      → Q (record l { nodes = l.nodes ++ d ∷ [] }) db

updated-SameIntent :
    (b : Bool) (f : OperationRecord → OperationRecord) (r : OperationRecord)
    → SameIntent (f r) r
    → SameIntent (if b then f r else r) r
updated-SameIntent true f r s = s
updated-SameIntent false f r s = record {
  id = refl;
  service_id = refl;
  expected_version = refl;
  before_spec_hash = refl;
  target_spec_hash = refl;
  target_replicas = refl;
}

updated-SameNodeIntent :
    (b : Bool) (f : NodeOperationRecord → NodeOperationRecord) (r : NodeOperationRecord)
    → SameNodeIntent (f r) r
    → SameNodeIntent (if b then f r else r) r
updated-SameNodeIntent true f r s = s
updated-SameNodeIntent false f r s = record {
  id = refl;
  node_id = refl;
  type = refl;
  expected_version = refl;
  before_spec_hash = refl;
  target_spec_hash = refl;
  target_labels = refl;
  affected_service_ids = refl;
}

-- The table of the request is all that it reads.
Recorded-rows :
    (d : Dispatch) (db db' : Db) → db'.operations ≡ db.operations → Recorded d db → Recorded d db'
unfolding find_operation
Recorded-rows d db db' e h = record {
  row = h.row;
  found = ap (find (λ r. r.id == d.operation_id)) e ∙ h.found;
  expected_version = h.expected_version;
  before_spec_hash = h.before_spec_hash;
  target_spec_hash = h.target_spec_hash;
  replicas = h.replicas;
}

NodeRecorded-rows :
    (d : NodeDispatch) (db db' : Db)
    → db'.node_operations ≡ db.node_operations
    → NodeRecorded d db
    → NodeRecorded d db'
unfolding NodeOperations.find_operation
NodeRecorded-rows d db db' e h = record {
  row = h.row;
  found = ap (find (λ r. r.id == d.operation_id)) e ∙ h.found;
  type = h.type;
  expected_version = h.expected_version;
  before_spec_hash = h.before_spec_hash;
  target_spec_hash = h.target_spec_hash;
  target_labels = h.target_labels;
  services = h.services;
}

pub Recorded-Stable : (d : Dispatch) → Stable (λ l db. Recorded d db)
unfolding Operations.audit
Recorded-Stable d = record {
  updates = λ id f same l db h.
      let s = updated-SameIntent (is_open id h.row) f h.row (same h.row) in
      record {
        row = if is_open id h.row then f h.row else h.row;
        found = find_operation-update d.operation_id id f db h.row (λ x. (same x).id) h.found;
        expected_version = s.expected_version ∙ h.expected_version;
        before_spec_hash = s.before_spec_hash ∙ h.before_spec_hash;
        target_spec_hash = s.target_spec_hash ∙ h.target_spec_hash;
        replicas = s.target_replicas ∙ h.replicas;
      };
  node_updates = λ id f same l db h. Recorded-rows d db _ refl h;
  audits = λ event l db h. Recorded-rows d db _ refl h;
}

pub NodeRecorded-Stable : (d : NodeDispatch) → Stable (λ l db. NodeRecorded d db)
unfolding Operations.audit
NodeRecorded-Stable d = record {
  updates = λ id f same l db h. NodeRecorded-rows d db _ refl h;
  node_updates = λ id f same l db h.
      let b = NodeOperations.Rows.is_open id h.row in
      let s = updated-SameNodeIntent b f h.row (same h.row) in
      record {
        row = if b then f h.row else h.row;
        found =
            NodeOperations.Rows.find_operation-update d.operation_id id f db h.row
              (λ x. (same x).id) h.found;
        type = s.type ∙ h.type;
        expected_version = s.expected_version ∙ h.expected_version;
        before_spec_hash = s.before_spec_hash ∙ h.before_spec_hash;
        target_spec_hash = s.target_spec_hash ∙ h.target_spec_hash;
        target_labels = s.target_labels ∙ h.target_labels;
        services = (λ i. named_services (s.type i) (s.affected_service_ids i)) ∙ h.services;
      };
  audits = λ event l db h. NodeRecorded-rows d db _ refl h;
}

created_operation :
    (n : NewOperation) (db db' : Db)
    → create n db ≡ some db'
    → db'.node_operations ≡ db.node_operations
created_operation n db db' e = ap (λ d. d.node_operations) (create-inv n db db' e).1

created_node_operation :
    (n : NewNodeOperation) (db db' : Db)
    → NodeOperations.create n db ≡ some db'
    → db'.operations ≡ db.operations
created_node_operation n db db' e =
    ap (λ d. d.operations) (NodeOperations.Rows.create-inv n db db' e).1

module _ (n : NewOperation) (db db' : Db) (e : create n db ≡ some db') where
  pub Recorded-create : (d : Dispatch) → Recorded d db → Recorded d db'
  Recorded-create d h = record {
    row = h.row;
    found = find_operation-create_found d.operation_id n db db' h.row e h.found;
    expected_version = h.expected_version;
    before_spec_hash = h.before_spec_hash;
    target_spec_hash = h.target_spec_hash;
    replicas = h.replicas;
  }

  pub NodeRecorded-create : (d : NodeDispatch) → NodeRecorded d db → NodeRecorded d db'
  NodeRecorded-create d h = NodeRecorded-rows d db db' (created_operation n db db' e) h

module _ (n : NewNodeOperation) (db db' : Db) (e : NodeOperations.create n db ≡ some db') where
  pub Recorded-create_node : (d : Dispatch) → Recorded d db → Recorded d db'
  Recorded-create_node d h = Recorded-rows d db db' (created_node_operation n db db' e) h

  pub NodeRecorded-create_node : (d : NodeDispatch) → NodeRecorded d db → NodeRecorded d db'
  NodeRecorded-create_node d h = record {
    row = h.row;
    found = NodeOperations.Rows.find_operation-create_found d.operation_id n db db' h.row e h.found;
    type = h.type;
    expected_version = h.expected_version;
    before_spec_hash = h.before_spec_hash;
    target_spec_hash = h.target_spec_hash;
    target_labels = h.target_labels;
    services = h.services;
  }
