-- ===== src/Store/Operations/Rows.antt =====
-- apps/api/src/operations/operation.repository.ts: what the updates of the status leave alone.
use docklane.Prelude.{
  eq-true, find-append, find-append_found, subst, ◌≡◌, ap, refl, sym, ◌∙◌, String, Bool, true,
  false, List, [], ◌∷◌, ◌++◌, Option, none, some, find, ◌==◌, String-eq, if◌then◌else◌, arith,
  some_inj,
}
use mathlib.Core.Option
use docklane.Store.{OperationStatus, OperationRecord, Db, is_final, is_unresolved}
use docklane.Store.Operations.{find_operation, update_rows, is_open, NewOperation, create, new_row}

-- An update that leaves a test alone: the first row that passes is updated or not.
pub find-update_rows :
    (p q : OperationRecord → Bool) (f : OperationRecord → OperationRecord)
    → ((r : OperationRecord) → p (f r) ≡ p r)
    → (rows : List OperationRecord)
    → find p (update_rows q f rows) ≡ Option.map (λ r. if q r then f r else r) (find p rows)
unfolding find update_rows
find-update_rows p q f same [] = refl
find-update_rows p q f same (r ∷ rows) = ground (arith, same r, find-update_rows p q f same rows)

-- A row that is recorded as final.
pub final_unresolved : (s : OperationStatus) → is_final s ≡ true → is_unresolved s ≡ false
final_unresolved OperationStatus.pending h = cc
final_unresolved OperationStatus.running h = cc
final_unresolved OperationStatus.verifying h = cc
final_unresolved OperationStatus.success h = refl
final_unresolved OperationStatus.failed h = refl
final_unresolved OperationStatus.needs_attention h = cc

created :
    (o : Option OperationRecord) (n : NewOperation) (db db' : Db)
    → elim o [
      | none ↦ some (record db { operations = db.operations ++ new_row n ∷ [] })
      | some _ ↦ none
    ]
      ≡ some db'
    → (o ≡ none) × (db' ≡ record db { operations = db.operations ++ new_row n ∷ [] })
created none n db db' h = (refl, sym (some_inj h))
created (some r) n db db' h = cc

-- An insertion that is not refused found no row of its identifier.
pub create-inv :
    (n : NewOperation) (db db' : Db)
    → create n db ≡ some db'
    → (find_operation n.id db ≡ none)
      × (db' ≡ record db { operations = db.operations ++ new_row n ∷ [] })
unfolding create
create-inv n db db' h = created (find_operation n.id db) n db db' h

-- It adds its own row, and leaves the others.
pub find_operation-create :
    (n : NewOperation) (db db' : Db)
    → create n db ≡ some db'
    → find_operation n.id db' ≡ some (new_row n)
unfolding find_operation
find_operation-create n db db' h =
    let (absent, e) = create-inv n db db' h in
    subst (λ d. find_operation n.id d ≡ some (new_row n)) (sym e)
      (find-append (λ r. r.id == n.id) db.operations (new_row n) absent
        ∙ ap (λ b. if b then some (new_row n) else none) (eq-true n.id))

pub find_operation-create_found :
    (id : String) (n : NewOperation) (db db' : Db) (r : OperationRecord)
    → create n db ≡ some db'
    → find_operation id db ≡ some r
    → find_operation id db' ≡ some r
unfolding find_operation
find_operation-create_found id n db db' r h f =
    let (absent, e) = create-inv n db db' h in
    subst (λ d. find_operation id d ≡ some r) (sym e)
      (find-append_found (λ x. x.id == id) db.operations (new_row n) r f)

-- An update of the open rows, seen by identifier.
pub find_operation-update :
    (id id' : String) (f : OperationRecord → OperationRecord) (db : Db) (r : OperationRecord)
    → ((x : OperationRecord) → (f x).id ≡ x.id)
    → find_operation id db ≡ some r
    → find_operation id (record db { operations = update_rows (is_open id') f db.operations })
      ≡ some (if is_open id' r then f r else r)
unfolding find_operation
find_operation-update id id' f db r same h =
    find-update_rows (λ x. x.id == id) (is_open id') f (λ x. ap (λ i. i == id) (same x))
      db.operations
    ∙ ap (Option.map (λ x. if is_open id' x then f x else x)) h
