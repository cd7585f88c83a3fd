-- ===== src/Mutation/Recorded.antt =====
-- apps/api/src/operations/mutation.service.ts: that an operation failed or needs attention is
-- recorded with its event, or neither is.
use docklane.Prelude.{
  ◌≡◌, refl, ap, ◌∙◌, String, String-eq, ◌==◌, true, Option, none, some, [], ◌∷◌, ◌++◌, find,
  find-true, if◌then◌else◌, arith,
}
use mathlib.Core.Option
use docklane.Prelude.Json.{Json}
use docklane.Agent.Errors.{AgentError, response_body}
use docklane.Store.{OperationStatus, OperationRecord, AuditEvent, Db, is_unresolved}
use docklane.Store.Operations.{
  find_operation, update_rows, is_open, mark_failed, mark_needs_attention, audit, service_event,
}
use docklane.Store.Operations.Rows.{find_operation-update}
use docklane.Exec.{World, Env, statement, transaction, ◌>>◌}
use docklane.Exec.Triple.{Outcome, Triple-bind}
use docklane.Exec.Atomic.{Closed, Thrown, transaction-Triple, statement-Opened}
use docklane.Mutation.Persist.{rejection_code, rejection_json, code_message, mark_agent_rejected}
use docklane.Mutation.Persist

-- The operation has this row, and the event follows those that were there.
pub record Recorded (id : String) (row : OperationRecord) (event : AuditEvent) (db d : Db)
    : Type 0 where
  pub found : find_operation id d ≡ some row
  pub noted : d.audit_events ≡ db.audit_events ++ event ∷ []

module _ (id : String) (f : OperationRecord → OperationRecord)
    (same : (r : OperationRecord) → (f r).id ≡ r.id) (event : AuditEvent) where
  abbrev updated : Db → Db
  updated db = record db { operations = update_rows (is_open id) f db.operations }

  if_open : (r : OperationRecord) → is_open id r ≡ true → (if is_open id r then f r else r) ≡ f r
  if_open r h = ap (λ b. if b then f r else r) h

  updated_row :
      (db : Db) (row : OperationRecord)
      → find_operation id db ≡ some row
      → is_unresolved row.status ≡ true
      → find_operation id (updated db) ≡ some (f row)
  unfolding find_operation
  updated_row db row found pending =
      let mine : (row.id == id) ≡ true = find-true (λ r. r.id == id) db.operations row found in
      find_operation-update id id f db row same found ∙ ap some (if_open row (ground arith))

  -- A transaction of one update and one event.
  both :
      (env : Env) (w : World) (row : OperationRecord)
      → w.saved ≡ none
      → find_operation id w.db ≡ some row
      → is_unresolved row.status ≡ true
      → Outcome
          (λ _. Closed env w.db (Recorded id (f row) event w.db))
          (Thrown env w.db (Recorded id (f row) event w.db))
          (transaction env (do statement env (λ _. updated); statement env (λ _. audit event)) w).0
          (transaction env (do statement env (λ _. updated); statement env (λ _. audit event)) w).1
  unfolding audit find_operation
  both env w row closed found pending =
      (transaction-Triple env w.db (Recorded id (f row) event w.db) _ (
          Triple-bind _ _
            (statement-Opened env w.db (λ d. d ≡ w.db) (λ d. d ≡ updated w.db) _
              (λ now d e. ap updated e))
            (λ _.
              statement-Opened env w.db (λ d. d ≡ updated w.db) (Recorded id (f row) event w.db) _
                (λ now d e. record {
                  found =
                      ap (λ (x : Db). find (λ r. r.id == id) x.operations) e
                      ∙ updated_row w.db row found pending;
                  noted = ap (λ (x : Db). x.audit_events ++ event ∷ []) e;
                })))).at
        w (closed, refl)

-- With no transaction open before it, and an operation that has not ended, markAgentRejected
-- returns with both in the committed tables: the operation is FAILED with the code and the body of
-- the rejection, and its event MUTATION_REJECTED is the last. Where it throws, the committed tables
-- are as they were, or they have both (the answer of the commit was lost); and its transaction is
-- open yet only where the last statement has failed, with what would be committed as it was.
pub mark_agent_rejected-atomic :
    (env : Env) (id actor_id cluster_id service_id : String) (rejection : AgentError) (w : World)
    (row : OperationRecord)
    → w.saved ≡ none
    → find_operation id w.db ≡ some row
    → is_unresolved row.status ≡ true
    → let after =
        Recorded id
          (record row {
            status = OperationStatus.failed;
            error_code = some (rejection_code rejection);
            error_message = some (response_body rejection);
          })
          (service_event id actor_id cluster_id service_id "MUTATION_REJECTED" none
            (some (rejection_json rejection)))
          w.db in
      Outcome
        (λ _. Closed env w.db after)
        (Thrown env w.db after)
        (mark_agent_rejected env id actor_id cluster_id service_id rejection w).0
        (mark_agent_rejected env id actor_id cluster_id service_id rejection w).1
unfolding mark_agent_rejected mark_failed
mark_agent_rejected-atomic env id actor_id cluster_id service_id rejection =
    both id
      (λ r. record r {
        status = OperationStatus.failed;
        error_code = some (rejection_code rejection);
        error_message = some (response_body rejection);
      })
      (λ r. refl) _ env

-- With no transaction open before it, and an operation that has not ended, markNeedsAttention
-- returns with both in the committed tables: the operation is NEEDS_ATTENTION with the code and the
-- message, and its event MUTATION_NEEDS_ATTENTION is the last. Where it throws, the committed
-- tables are as they were, or they have both (the answer of the commit was lost); and its
-- transaction is open yet only where the last statement has failed, with what would be committed as
-- it was.
pub mark_needs_attention-atomic :
    (env : Env) (operation : OperationRecord) (code message : String) (current : Option Json)
    (w : World) (row : OperationRecord)
    → w.saved ≡ none
    → find_operation operation.id w.db ≡ some row
    → is_unresolved row.status ≡ true
    → let after =
        Recorded operation.id
          (record row {
            status = OperationStatus.needs_attention;
            error_code = some code;
            error_message = some message;
          })
          (service_event operation.id operation.actor_id operation.cluster_id operation.service_id
            "MUTATION_NEEDS_ATTENTION" none
            (some (Option.get_or current (code_message code message))))
          w.db in
      Outcome
        (λ _. Closed env w.db after)
        (Thrown env w.db after)
        (Persist.mark_needs_attention env operation code message current w).0
        (Persist.mark_needs_attention env operation code message current w).1
unfolding Persist.mark_needs_attention mark_needs_attention
mark_needs_attention-atomic env operation code message current =
    both operation.id
      (λ r. record r {
        status = OperationStatus.needs_attention;
        error_code = some code;
        error_message = some message;
      })
      (λ r. refl) _ env
