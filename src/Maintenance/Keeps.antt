-- ===== src/Maintenance/Keeps.antt =====
-- apps/api/src/clusters: what every operation of the maintenance keeps true, from what each of its
-- statements keeps.
pub mod Leasing
pub mod Closing
pub mod Sending
use docklane.Prelude.{ℕ, ◌+◌, ◌≡◌, true, String, [], ◌∷◌, ◌++◌, some}
use docklane.Store.{AuditEvent, Db}
use docklane.Store.Operations.{audit}
use docklane.Exec.{ok, Dispatch, NodeDispatch, Requests}
use docklane.Maintenance.{
  MaintenanceState, ControlLease, MaintenanceLease, ActiveAdmission, DispatchPhase,
  MaintenanceDispatch,
}
use docklane.Maintenance.Statements.{
  set_state, insert_open, find_lease, retake, insert_lease, expire,
}
use docklane.Maintenance.Journal.{
  AdmissionScope, link_admission, insert_dispatch, promote, change_phase, phase_allowed,
}
use docklane.Maintenance.Admission.{insert_admission, delete_admission}
use docklane.Maintenance.Repository.{allowed}

-- The statements keep `Q`, each where the code runs it: a state is changed to one that is allowed, and
-- a lease is retaken with the token that follows its row's.
pub record Stable (Q : Requests → Db → Type 0) : Type 0 where
  pub advances :
      (c : String) (s : MaintenanceState) (g : ℕ) (t : MaintenanceState) (a r : String) (now : ℕ)
      (l : Requests) (db : Db) (n : ℕ) (db' : Db)
      → allowed s t ≡ true
      → Q l db
      → set_state c s g t a r now db ≡ ok (n, db')
      → Q l db'
  pub opens :
      (c a r : String) (now : ℕ) (l : Requests) (db db' : Db)
      → Q l db
      → insert_open c a r now db ≡ some db'
      → Q l db'
  pub audits : (e : AuditEvent) (l : Requests) (db : Db) → Q l db → Q l (audit e db)
  pub retakes :
      (c h : String) (row : ControlLease) (ttl now : ℕ) (l : Requests) (db : Db) (n : ℕ) (db' : Db)
      → find_lease c db ≡ some row
      → Q l db
      → retake c h (row.fence_token + 1) ttl now db ≡ ok (n, db')
      → Q l db'
  pub leases :
      (c h : String) (ttl now : ℕ) (l : Requests) (db db' : Db)
      → Q l db
      → insert_lease c h ttl now db ≡ some db'
      → Q l db'
  pub expires :
      (lease : MaintenanceLease) (now : ℕ) (l : Requests) (db : Db) (n : ℕ) (db' : Db)
      → Q l db
      → expire lease now db ≡ ok (n, db')
      → Q l db'
  pub links :
      (s : AdmissionScope) (c o : String) (l : Requests) (db : Db) (n : ℕ) (db' : Db)
      → Q l db
      → link_admission s c o db ≡ ok (n, db')
      → Q l db'
  pub prepares :
      (d : MaintenanceDispatch) (l : Requests) (db : Db) (n : ℕ) (db' : Db)
      → d.phase ≡ DispatchPhase.prepared
      → Q l db
      → insert_dispatch d db ≡ ok (n, db')
      → Q l db'
  pub promotes :
      (i c : String) (g : ℕ) (a o : String) (l : Requests) (db : Db) (n : ℕ) (db' : Db)
      → Q l db
      → promote i c g a o db ≡ ok (n, db')
      → Q l db'
  pub changes :
      (i : String) (from to : DispatchPhase) (l : Requests) (db : Db) (n : ℕ) (db' : Db)
      → phase_allowed from to ≡ true
      → Q l db
      → change_phase i from to db ≡ ok (n, db')
      → Q l db'
  pub admits :
      (a : ActiveAdmission) (l : Requests) (db : Db) (n : ℕ) (db' : Db)
      → Q l db
      → insert_admission a db ≡ ok (n, db')
      → Q l db'
  pub deletes : (i : String) (l : Requests) (db : Db) → Q l db → Q l (delete_admission i db)
  pub sends :
      (d : Dispatch) (l : Requests) (db : Db)
      → Q l db
      → Q (record l { services = l.services ++ d ∷ [] }) db
  pub node_sends :
      (d : NodeDispatch) (l : Requests) (db : Db)
      → Q l db
      → Q (record l { nodes = l.nodes ++ d ∷ [] }) db
