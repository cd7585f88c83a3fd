-- ===== src/Store/NodeOperations/Rows.antt =====
-- apps/api/src/operations/node-operation.repository.ts: what the updates of the status leave alone.
use docklane.Prelude.{
  eq-true, find-append, find-append_found, subst, ◌≡◌, ap, refl, sym, ◌∙◌, String, Bool, List, [],
  ◌∷◌, ◌++◌, ◌&&◌, Option, none, some, find, ◌==◌, String-eq, if◌then◌else◌, arith, some_inj,
}
use mathlib.Core.Option
use docklane.Store.{NodeOperationRecord, Db, is_unresolved}
use docklane.Store.NodeOperations.{find_operation, update_rows, NewNodeOperation, create, new_row}

abbrev pub is_open : String → NodeOperationRecord → Bool
is_open id r = r.id == id && is_unresolved r.status

pub find-update_rows :
    (id id' : String) (f : NodeOperationRecord → NodeOperationRecord)
    → ((r : NodeOperationRecord) → (f r).id ≡ r.id)
    → (rows : List NodeOperationRecord)
    → find (λ r. r.id == id) (update_rows id' f rows)
      ≡ Option.map (λ r. if is_open id' r then f r else r) (find (λ r. r.id == id) rows)
unfolding find update_rows
find-update_rows id id' f same [] = refl
find-update_rows id id' f same (r ∷ rows) =
    ground (arith, same r, find-update_rows id id' f same rows)

-- An update of the open rows, seen by identifier.
pub find_operation-update :
    (id id' : String) (f : NodeOperationRecord → NodeOperationRecord) (db : Db)
    (r : NodeOperationRecord)
    → ((x : NodeOperationRecord) → (f x).id ≡ x.id)
    → find_operation id db ≡ some r
    → find_operation id (record db { node_operations = update_rows id' f db.node_operations })
      ≡ some (if is_open id' r then f r else r)
unfolding find_operation
find_operation-update id id' f db r same h =
    find-update_rows id id' f same db.node_operations
    ∙ ap (Option.map (λ x. if is_open id' x then f x else x)) h

abbrev extended : NewNodeOperation → Db → Db
extended n db = record db { node_operations = db.node_operations ++ new_row n ∷ [] }

created :
    (o : Option NodeOperationRecord) (n : NewNodeOperation) (db db' : Db)
    → elim o [ none ↦ some (extended n db) | some _ ↦ none ] ≡ some db'
    → (o ≡ none) × (db' ≡ extended n db)
created none n db db' h = (refl, sym (some_inj h))
created (some r) n db db' h = cc

-- An insertion that is not refused found no row of its identifier.
pub create-inv :
    (n : NewNodeOperation) (db db' : Db)
    → create n db ≡ some db'
    → (find_operation n.id db ≡ none)
      × (db' ≡ record db { node_operations = db.node_operations ++ new_row n ∷ [] })
unfolding create
create-inv n db db' h = created (find_operation n.id db) n db db' h

-- It adds its own row, and leaves the others.
pub find_operation-create :
    (n : NewNodeOperation) (db db' : Db)
    → create n db ≡ some db'
    → find_operation n.id db' ≡ some (new_row n)
unfolding find_operation
find_operation-create n db db' h =
    let (absent, e) = create-inv n db db' h in
    subst (λ d. find_operation n.id d ≡ some (new_row n)) (sym e)
      (find-append (λ r. r.id == n.id) db.node_operations (new_row n) absent
        ∙ ap (λ b. if b then some (new_row n) else none) (eq-true n.id))

pub find_operation-create_found :
    (id : String) (n : NewNodeOperation) (db db' : Db) (r : NodeOperationRecord)
    → create n db ≡ some db'
    → find_operation id db ≡ some r
    → find_operation id db' ≡ some r
unfolding find_operation
find_operation-create_found id n db db' r h f =
    let (absent, e) = create-inv n db db' h in
    subst (λ d. find_operation id d ≡ some r) (sym e)
      (find-append_found (λ x. x.id == id) db.node_operations (new_row n) r f)
