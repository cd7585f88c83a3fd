-- ===== src/Mutation/Atomicity.antt =====
-- apps/api/src/operations/mutation.service.ts: the intent is written as a whole or not at all.
use docklane.Prelude.{
  ◌≡◌, refl, sym, ap, ◌∙◌, String, String-eq, ◌==◌, true, Option, none, some, List, [], ◌∷◌, ◌++◌,
  find, arith, ◌&&◌, eq-true,
}
use docklane.Store.{OperationStatus, OperationRecord, Db}
use docklane.Store.Operations.{
  new_row, create, find_operation, update_rows, mark_running, audit, is_open,
}
use docklane.Exec.{World, Env}
use docklane.Exec.Triple.{Outcome, Triple-bind}
use docklane.Exec.Atomic.{Closed, Thrown, transaction-Triple, insertion-Opened, statement-Opened}
use docklane.Mutation.Persist.{Intent, intent_row, intent_event, persist_intent}

-- Only the row that was added has the id.
update_rows-added :
    (id : String) (f : OperationRecord → OperationRecord) (rows : List OperationRecord)
    (row : OperationRecord)
    → find (λ r. r.id == id) rows ≡ none
    → is_open id row ≡ true
    → update_rows (is_open id) f (rows ++ row ∷ []) ≡ rows ++ f row ∷ []
unfolding update_rows find
update_rows-added id f [] row h e = rw e refl
update_rows-added id f (r ∷ rows) row h e = ground (arith, update_rows-added id f rows row)

created :
    (o : Option OperationRecord) (d d' : Db)
    → elim o [ none ↦ some d | some _ ↦ none ] ≡ some d'
    → (o ≡ none) × (d' ≡ d)
created none d d' e = (refl, cc)
created (some x) d d' e = cc

module _ (intent : Intent) where
  abbrev pending_row : OperationRecord
  pending_row = new_row (intent_row intent)

  abbrev running_row : OperationRecord
  running_row = record pending_row { status = OperationStatus.running }

module _ (intent : Intent) (db : Db) where
  -- The id was free, and the row is there.
  record With (row : OperationRecord) (d : Db) : Type 0 where
    free : find_operation intent.operation_id db ≡ none
    tables : d ≡ record db { operations = db.operations ++ row ∷ [] }

  -- The tables with the operation of the intent, RUNNING, and its event, where its id was free.
  pub record Intended (d : Db) : Type 0 where
    pub free : find_operation intent.operation_id db ≡ none
    pub tables : d ≡ record db {
      operations = db.operations ++ running_row intent ∷ [];
      audit_events = db.audit_events ++ intent_event intent ∷ [];
    }

  added :
      (d d' : Db) → d ≡ db → create (intent_row intent) d ≡ some d' → With (pending_row intent) d'
  unfolding create find_operation
  added d d' same e =
      let (free, tables) = created _ _ d' e in
      record {
        free = ap (λ x. find (λ r. r.id == intent.operation_id) x.operations) (sym same) ∙ free;
        tables =
            tables
            ∙ ap {A = Db} {B = Db}
                (λ x. record x { operations = x.operations ++ pending_row intent ∷ [] }) same;
      }

  running :
      (d : Db)
      → With (pending_row intent) d
      → With (running_row intent) (mark_running intent.operation_id d)
  unfolding mark_running find_operation
  running d p = record {
    free = p.free;
    tables =
        ap (mark_running intent.operation_id) p.tables
        ∙ ap (λ rows. record db { operations = rows })
            (update_rows-added intent.operation_id
              (λ r. record r { status = OperationStatus.running }) db.operations
              (pending_row intent) p.free (ap (λ b. b && true) (eq-true intent.operation_id)));
  }

  noted : (d : Db) → With (running_row intent) d → Intended (audit (intent_event intent) d)
  unfolding audit
  noted d p = record { free = p.free; tables = ap (audit (intent_event intent)) p.tables }

-- With no transaction open before it, persistIntent returns with the operation as RUNNING and
-- its event in the committed tables, and its id was free. Where it throws, the committed tables are as
-- they were, or they have both (the answer of the commit was lost); and its transaction is open yet
-- only where the last statement has failed, with what would be committed as it was.
pub persist_intent-atomic :
    (env : Env) (intent : Intent) (w : World)
    → w.saved ≡ none
    → Outcome
        (λ _. Closed env w.db (Intended intent w.db))
        (Thrown env w.db (Intended intent w.db))
        (persist_intent env intent w).0
        (persist_intent env intent w).1
unfolding persist_intent
persist_intent-atomic env intent w closed =
    let writes =
      Triple-bind _ _
        (insertion-Opened env w.db _ (With intent w.db (pending_row intent)) _
          (λ now d d' same e. added intent w.db d d' same e))
        λ _.
          Triple-bind _ _
            (statement-Opened env w.db _ (With intent w.db (running_row intent)) _
              (λ now d p. running intent w.db d p))
            (λ _.
              statement-Opened env w.db _ (Intended intent w.db) _
                (λ now d p. noted intent w.db d p)) in
    (transaction-Triple env w.db (Intended intent w.db) _ writes).at w (closed, refl)
