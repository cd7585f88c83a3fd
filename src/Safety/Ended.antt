-- ===== src/Safety/Ended.antt =====
-- apps/api/src/operations/mutation.service.ts and apps/api/src/operations/node-mutation.service.ts:
-- an operation that has ended stays as it is.
use docklane.Prelude.{
  ◌≡◌, ap, ◌∙◌, String, true, false, none, some, if◌then◌else◌, arith, subst, sym,
}
use docklane.Store.{OperationRecord, NodeOperationRecord, Db, is_final}
use docklane.Store.Operations
use docklane.Store.Operations.{find_operation, is_open}
use docklane.Store.Operations.Rows.{
  find_operation-update, find_operation-create_found, final_unresolved, create-inv,
}
use docklane.Store.NodeOperations
use docklane.Store.NodeOperations.Rows
use docklane.Exec.{Requests, World}
use docklane.Exec.Atomic.{durable, Holds-durable}
use docklane.Exec.Keeps.Tables.{Holds}
use docklane.Traces.{Admits}
use docklane.Safety.{Runs, Runs-Holds}

-- The row of an operation that has ended.
abbrev Ended : String → OperationRecord → Requests → Db → Type 0
Ended id row l db = find_operation id db ≡ some row

abbrev NodeEnded : String → NodeOperationRecord → Requests → Db → Type 0
NodeEnded id row l db = NodeOperations.find_operation id db ≡ some row

closed : (id : String) (row : OperationRecord) → is_final row.status ≡ true → is_open id row ≡ false
closed id row final = ground (arith, final_unresolved row.status final)

node_closed :
    (id : String) (row : NodeOperationRecord)
    → is_final row.status ≡ true
    → NodeOperations.Rows.is_open id row ≡ false
node_closed id row final = ground (arith, final_unresolved row.status final)

Ended-Admits :
    (id : String) (row : OperationRecord)
    → is_final row.status ≡ true
    → Admits (λ _ _. Unit {0}) (λ _ _. Unit {0}) (Ended id row)
unfolding Operations.audit find_operation
Ended-Admits id row final = record {
  stable = record {
    updates = λ id' f same l db h.
        find_operation-update id id' f db row (λ x. (same x).id) h
        ∙ ap (λ b. some (if b then f row else row)) (closed id' row final);
    node_updates = λ id' f same l db h. h;
    audits = λ event l db h. h;
  };
  creates = λ n l db db' h e. find_operation-create_found id n db db' row e h;
  node_creates = λ n l db db' h e.
      subst (λ d. find_operation id d ≡ some row)
        (sym (NodeOperations.Rows.create-inv n db db' e).1) h;
  ready = λ id l db h absent. tt;
  node_ready = λ id l db h absent. tt;
  sent = λ d l db h r t. h;
  node_sent = λ d l db h r t. h;
}

NodeEnded-Admits :
    (id : String) (row : NodeOperationRecord)
    → is_final row.status ≡ true
    → Admits (λ _ _. Unit {0}) (λ _ _. Unit {0}) (NodeEnded id row)
unfolding Operations.audit NodeOperations.find_operation
NodeEnded-Admits id row final = record {
  stable = record {
    updates = λ id' f same l db h. h;
    node_updates = λ id' f same l db h.
        NodeOperations.Rows.find_operation-update id id' f db row (λ x. (same x).id) h
        ∙ ap (λ b. some (if b then f row else row)) (node_closed id' row final);
    audits = λ event l db h. h;
  };
  creates = λ n l db db' h e.
      subst (λ d. NodeOperations.find_operation id d ≡ some row) (sym (create-inv n db db' e).1) h;
  node_creates =
      λ n l db db' h e. NodeOperations.Rows.find_operation-create_found id n db db' row e h;
  ready = λ id l db h absent. tt;
  node_ready = λ id l db h absent. tt;
  sent = λ d l db h r t. h;
  node_sent = λ d l db h r t. h;
}

-- An operation whose row is SUCCESS or FAILED keeps that row, every column of it, in any run of
-- scale, restart, drain, activate, labels and the two recoveries that starts with no transaction
-- open, whatever the agent, the server and the clock answer: in the tables that the session sees and
-- in those that are committed.
pub Runs-Ended :
    (w w' : World) (id : String) (row : OperationRecord)
    → Runs w w'
    → is_final row.status ≡ true
    → w.saved ≡ none
    → find_operation id w.db ≡ some row
    → (find_operation id w'.db ≡ some row) × (find_operation id (durable w') ≡ some row)
Runs-Ended w w' id row run final closed found =
    let held : Holds (Ended id row) w' =
      Runs-Holds (Ended-Admits id row final) w w' run (record { seen = found; kept = λ d e. cc }) in
    (held.seen, Holds-durable w' held)

-- The same of a node operation: once its row is SUCCESS or FAILED, no run of scale, restart, drain,
-- activate, labels and the two recoveries that starts with no transaction open changes a column of
-- it, in the tables that the session sees and in those that are committed.
pub Runs-NodeEnded :
    (w w' : World) (id : String) (row : NodeOperationRecord)
    → Runs w w'
    → is_final row.status ≡ true
    → w.saved ≡ none
    → NodeOperations.find_operation id w.db ≡ some row
    → (NodeOperations.find_operation id w'.db ≡ some row)
      × (NodeOperations.find_operation id (durable w') ≡ some row)
Runs-NodeEnded w w' id row run final closed found =
    let held : Holds (NodeEnded id row) w' =
      Runs-Holds (NodeEnded-Admits id row final) w w' run
        (record { seen = found; kept = λ d e. cc }) in
    (held.seen, Holds-durable w' held)
