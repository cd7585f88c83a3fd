-- ===== src/Maintenance/Statements.antt =====
-- apps/api/src/clusters/cluster-maintenance.repository.ts and
-- apps/api/src/clusters/maintenance-control-lease.ts: the statements as functions of the tables.
use docklane.Prelude.{
  ℕ, ◌+◌, ◌*◌, String, Bool, true, false, ◌&&◌, not, [], ◌∷◌, ◌++◌, Option, none, some, ◌==◌,
  String-eq, ℕ-eq, find, keep, length, update_where, matched,
}
use docklane.Store.{Db, is_unresolved}
use docklane.Exec.{Result, ok}
use docklane.Maintenance.{
  MaintenanceState, opened, closing, closed, reconciling, MaintenanceRecord, ControlLease,
  MaintenanceLease, DispatchPhase, EvidenceType,
}

abbrev pub state_eq : MaintenanceState → MaintenanceState → Bool
state_eq opened opened = true
state_eq closing closing = true
state_eq closed closed = true
state_eq reconciling reconciling = true
state_eq _ _ = false

abbrev pub state_name : MaintenanceState → String
state_name opened = "OPEN"
state_name closing = "CLOSING"
state_name closed = "CLOSED"
state_name reconciling = "RECONCILING"

-- SELECT … FROM cluster_maintenance_states WHERE cluster_id = ?
unfoldable pub find_state : String → Db → Option MaintenanceRecord
unfolding find
find_state cluster_id db = find (λ r. r.cluster_id == cluster_id) db.maintenance_states

-- INSERT INTO cluster_maintenance_states … VALUES (?, 'OPEN', 1, ?, ?, ?)
unfoldable pub insert_open : String → String → String → ℕ → Db → Option Db
unfolding find_state
insert_open cluster_id actor_id reason now db = elim (find_state cluster_id db) [
  | none ↦ some (record db {
    maintenance_states =
        db.maintenance_states
        ++ record {
          cluster_id = cluster_id;
          state = opened;
          generation = 1;
          owner_id = actor_id;
          reason = reason;
          changed_by = actor_id;
          changed_at = now;
        }
          ∷ [];
  })
  | some _ ↦ none
]

-- WHERE cluster_id = ? AND state = ? AND generation = ?
abbrev pub is_at : String → MaintenanceState → ℕ → MaintenanceRecord → Bool
is_at cluster_id state generation r =
    r.cluster_id == cluster_id && state_eq r.state state && r.generation == generation

abbrev pub advance : MaintenanceState → String → String → ℕ → MaintenanceRecord → MaintenanceRecord
advance target actor_id reason now r = record r {
  state = target;
  generation = r.generation + 1;
  owner_id = actor_id;
  reason = reason;
  changed_by = actor_id;
  changed_at = now;
}

-- UPDATE cluster_maintenance_states SET state = ?, generation = generation + 1, …
unfoldable pub set_state :
    String → MaintenanceState → ℕ → MaintenanceState → String → String → ℕ → Db → Result (ℕ × Db)
unfolding update_where matched
set_state cluster_id state generation target actor_id reason now db = ok (
  matched (is_at cluster_id state generation) db.maintenance_states,
  record db {
    maintenance_states =
        update_where (is_at cluster_id state generation) (advance target actor_id reason now)
          db.maintenance_states;
  },
)

abbrev pub evidence_eq : EvidenceType → EvidenceType → Bool
evidence_eq EvidenceType.dispatch EvidenceType.dispatch = true
evidence_eq EvidenceType.admission EvidenceType.admission = true
evidence_eq _ _ = false

-- EXISTS (SELECT 1 FROM maintenance_evidence_resolutions …)
unfoldable pub is_resolved : EvidenceType → String → String → Db → Bool
unfolding find
is_resolved type cluster_id id db =
    elim (find
      (λ r. r.cluster_id == cluster_id && evidence_eq r.evidence_type type && r.evidence_id == id)
      db.evidence_resolutions) [ none ↦ false | some _ ↦ true ]

-- phase IN ('PREPARED','SENDING','UNCERTAIN')
abbrev pub is_uncertain : DispatchPhase → Bool
is_uncertain DispatchPhase.acknowledged = false
is_uncertain DispatchPhase.rejected = false
is_uncertain _ = true

unfoldable pub count_active : String → Db → ℕ
unfolding keep is_resolved
count_active cluster_id db = length (
    keep
      (λ a.
        a.cluster_id == cluster_id && not (is_resolved EvidenceType.admission cluster_id a.id db))
      db.active_admissions)

unfoldable pub count_operations : String → Db → ℕ
unfolding keep
count_operations cluster_id db =
    length (keep (λ r. r.cluster_id == cluster_id && is_unresolved r.status) db.operations)
    + length (keep (λ r. r.cluster_id == cluster_id && is_unresolved r.status) db.node_operations)

unfoldable pub count_dispatches : String → Db → ℕ
unfolding keep is_resolved
count_dispatches cluster_id db = length (
    keep
      (λ d.
        d.cluster_id == cluster_id
        && is_uncertain d.phase
        && not (is_resolved EvidenceType.dispatch cluster_id d.id db))
      db.maintenance_dispatches)

-- SELECT … FROM maintenance_control_leases WHERE cluster_id = ?
unfoldable pub find_lease : String → Db → Option ControlLease
unfolding find
find_lease cluster_id db = find (λ r. r.cluster_id == cluster_id) db.control_leases

abbrev pub is_held_by : MaintenanceLease → ControlLease → Bool
is_held_by lease r =
    r.cluster_id == lease.cluster_id
    && r.holder_id == lease.holder_id
    && r.fence_token == lease.token

-- UPDATE maintenance_control_leases SET holder_id = ?, fence_token = ?, expires_at = …
unfoldable pub retake : String → String → ℕ → ℕ → ℕ → Db → Result (ℕ × Db)
unfolding update_where matched
retake cluster_id holder_id token ttl_seconds now db = ok (
  matched (λ r. r.cluster_id == cluster_id) db.control_leases,
  record db {
    control_leases =
        update_where (λ r. r.cluster_id == cluster_id)
          (λ r. record r {
            holder_id = holder_id;
            fence_token = token;
            expires_at = now + ttl_seconds * 1000;
          })
          db.control_leases;
  },
)

unfoldable pub insert_lease : String → String → ℕ → ℕ → Db → Option Db
unfolding find_lease
insert_lease cluster_id holder_id ttl_seconds now db = elim (find_lease cluster_id db) [
  | none ↦ some (record db {
    control_leases =
        db.control_leases
        ++ record {
          cluster_id = cluster_id;
          holder_id = holder_id;
          fence_token = 1;
          expires_at = now + ttl_seconds * 1000;
        }
          ∷ [];
  })
  | some _ ↦ none
]

-- UPDATE maintenance_control_leases SET expires_at = UTC_TIMESTAMP(6) WHERE …
unfoldable pub expire : MaintenanceLease → ℕ → Db → Result (ℕ × Db)
unfolding update_where matched
expire lease now db = ok (
  matched (is_held_by lease) db.control_leases,
  record db {
    control_leases =
        update_where (is_held_by lease) (λ r. record r { expires_at = now }) db.control_leases;
  },
)
