-- ===== src/Maintenance/Writes.antt =====
-- apps/api/src/clusters: which rows each statement of the maintenance leaves.
use docklane.Prelude.{
  ℕ, ◌≡◌, ◌+◌, ◌*◌, refl, sym, String, Bool, true, false, not, List, [], ◌∷◌, ◌++◌, Option, none,
  some, some_inj, if◌then◌else◌,
}
use docklane.Store.{Db}
use docklane.Exec.{Result, ok, err, Failure}
use docklane.Maintenance.{opened, ActiveAdmission, MaintenanceDispatch}
use docklane.Maintenance.Statements.{find_state, insert_open, find_lease, insert_lease}
use docklane.Maintenance.Journal.{insert_dispatch, open_at}
use docklane.Maintenance.Admission.{insert_admission}

module _ {A : Type 0} where
  inserted :
      (o : Option A) (db db' : Db)
      → elim o [ none ↦ some db | some _ ↦ none ] ≡ some db'
      → (o ≡ none) × (db' ≡ db)
  inserted none db db' h = (refl, sym (some_inj h))
  inserted (some x) db db' h = cc

pub ok_second : {n m : ℕ} {d d' : Db} → ◌≡◌ {A = Result (ℕ × Db)} (ok (n, d)) (ok (m, d')) → d' ≡ d
ok_second h = cc

pub insert_open-inv :
    (c a r : String) (now : ℕ) (db db' : Db)
    → insert_open c a r now db ≡ some db'
    → (find_state c db ≡ none)
      × (db' ≡ record db {
        maintenance_states =
            db.maintenance_states
            ++ record {
              cluster_id = c;
              state = opened;
              generation = 1;
              owner_id = a;
              reason = r;
              changed_by = a;
              changed_at = now;
            }
              ∷ [];
      })
unfolding insert_open
insert_open-inv c a r now db db' h = inserted (find_state c db) _ db' h

pub insert_lease-inv :
    (c h : String) (ttl now : ℕ) (db db' : Db)
    → insert_lease c h ttl now db ≡ some db'
    → (find_lease c db ≡ none)
      × (db' ≡ record db {
        control_leases =
            db.control_leases
            ++ record {
              cluster_id = c;
              holder_id = h;
              fence_token = 1;
              expires_at = now + ttl * 1000;
            }
              ∷ [];
      })
unfolding insert_lease
insert_lease-inv c h ttl now db db' e = inserted (find_lease c db) _ db' e

journalled :
    {A B : Type 0} (o : Option A) (p : Option B) (e f : Failure) (n : ℕ) (db db' : Db)
    → ◌≡◌ {A = Result (ℕ × Db)}
        (elim o [ some _ ↦ err e | none ↦ elim p [ none ↦ err f | some _ ↦ ok (1, db) ] ])
        (ok (n, db'))
    → (o ≡ none) × (db' ≡ db)
journalled none none e f n db db' h = cc
journalled none (some x) e f n db db' h = (refl, ok_second h)
journalled (some y) p e f n db db' h = cc

pub insert_dispatch-inv :
    (d : MaintenanceDispatch) (db : Db) (n : ℕ) (db' : Db)
    → insert_dispatch d db ≡ ok (n, db')
    → db' ≡ record db { maintenance_dispatches = db.maintenance_dispatches ++ d ∷ [] }
unfolding insert_dispatch
insert_dispatch-inv d db n db' h = (journalled _ (find_state d.cluster_id db) _ _ n _ db' h).1

admitted :
    {A : Type 0} (b : Bool) (o : Option A) (e : Failure) (n : ℕ) (rows : List ActiveAdmission)
    (db db' : Db)
    → ◌≡◌ {A = Result (ℕ × Db)}
        (if◌then◌else◌ {A = Result (ℕ × Db)} b
          (ok (0, db))
          (elim o [ some _ ↦ err e | none ↦ ok (1, record db { active_admissions = rows }) ]))
        (ok (n, db'))
    → (kept : List ActiveAdmission) × (db' ≡ record db { active_admissions = kept })
admitted true o e n rows db db' h = (db.active_admissions, ok_second h)
admitted false none e n rows db db' h = (rows, ok_second h)
admitted false (some x) e n rows db db' h = cc

pub insert_admission-inv :
    (a : ActiveAdmission) (db : Db) (n : ℕ) (db' : Db)
    → insert_admission a db ≡ ok (n, db')
    → (rows : List ActiveAdmission) × (db' ≡ record db { active_admissions = rows })
unfolding insert_admission
insert_admission-inv a db n db' h =
    admitted (not (open_at a.cluster_id a.generation db)) _ _ n _ db db' h
