-- ===== src/Maintenance/Repository.antt =====
-- apps/api/src/clusters/cluster-maintenance.repository.ts: the state of the maintenance, and its
-- guarded changes. An optional `controlLease` is always there at run time.
use Prim.Native.Nat.{Ordering}
use Prim.Native.String.{compare}
use docklane.Prelude.{
  ℕ, ◌+◌, String, Bool, true, false, ◌&&◌, ◌||◌, not, List, [], ◌∷◌, Option, none, some, ◌==◌, ◌!=◌,
  String-eq, ℕ-eq, ltb, keep, length, if◌then◌else◌, decimal,
}
use docklane.Prelude.Json.{Fields, str, arr, obj, end, field}
use docklane.Agent.Payload.{strings_json}
use docklane.Store.{Db, AuditEvent}
use docklane.Store.Operations.{audit}
use docklane.Lock.{unique, sort}
use docklane.Exec.{
  conflict, service_unavailable, M, Env, pure, raise, try, throw_if, ◌>>=◌, ◌>>◌, query, statement,
  insertion, commit, rollback,
}
use docklane.Exec.Uuid.{random_uuid}
use docklane.Exec.Execute.{execute, guarded_transaction}
use docklane.Maintenance.{
  MaintenanceState, opened, closing, closed, reconciling, RecoveryOrigin, from_closed,
  from_reconciling, MaintenanceRecord, MaintenanceLease, AgentBarrier, BarrierState,
}
use docklane.Maintenance.Input.{blank, units, unfit}
use docklane.Maintenance.Lease.{assert_owner}
use docklane.Maintenance.Statements.{
  find_state, insert_open, set_state, state_eq, state_name, count_active, count_operations,
  count_dispatches,
}

abbrev pub allowed : MaintenanceState → MaintenanceState → Bool
allowed opened target = state_eq target closing
allowed closing target = state_eq target closed
allowed closed target = state_eq target reconciling
allowed reconciling target = state_eq target opened

-- SELECT … FROM maintenance_agent_barriers WHERE cluster_id = ? ORDER BY agent_id
unfoldable pub insert_by_agent : AgentBarrier → List AgentBarrier → List AgentBarrier
insert_by_agent x [] = x ∷ []
insert_by_agent x (y ∷ ys) = elim (compare x.agent_id y.agent_id) [
  | Ordering.gt ↦ y ∷ insert_by_agent x ys
  | _ ↦ x ∷ y ∷ ys
]

unfoldable pub order_by_agent : List AgentBarrier → List AgentBarrier
unfolding insert_by_agent
order_by_agent [] = []
order_by_agent (x ∷ xs) = insert_by_agent x (order_by_agent xs)

unfoldable pub find_barriers : String → Db → List AgentBarrier
unfolding order_by_agent keep
find_barriers cluster_id db =
    order_by_agent (keep (λ b. b.cluster_id == cluster_id) db.agent_barriers)

abbrev pub is_acknowledged : BarrierState → Bool
is_acknowledged BarrierState.acknowledged = true
is_acknowledged BarrierState.pending = false

-- acks.length !== expected.length || acks.some((ack, i) => …)
unfoldable pub acks_differ : List AgentBarrier → List String → ℕ → Bool
acks_differ [] [] generation = false
acks_differ [] (e ∷ es) generation = true
acks_differ (a ∷ as_) [] generation = true
acks_differ (a ∷ as_) (e ∷ es) generation =
    a.agent_id != e
    || a.generation != generation
    || not (is_acknowledged a.state)
    || acks_differ as_ es generation

-- A list of managers that is empty or names one twice.
unfoldable pub roster_invalid : List String → Bool
unfolding unique
roster_invalid ids = ltb (length ids) 1 || length (unique ids) != length ids

-- The three counts of one statement: admissions, operations and dispatches.
unfoldable pub count_unresolved : String → Db → ℕ × ℕ × ℕ
unfolding count_active count_operations count_dispatches
count_unresolved cluster_id db =
    (count_active cluster_id db, count_operations cluster_id db, count_dispatches cluster_id db)

abbrev pub some_unresolved : ℕ × ℕ × ℕ → Bool
some_unresolved (active, operations, dispatches) = active != 0 || operations != 0 || dispatches != 0

-- rows[0]?.state !== state || rows[0]?.generation !== generation
abbrev pub not_at : MaintenanceState → ℕ → Option MaintenanceRecord → Bool
not_at state generation none = true
not_at state generation (some r) = not (state_eq r.state state) || r.generation != generation

abbrev pub cluster_event : String → String → String → String → Fields → AuditEvent
cluster_event operation_id actor_id cluster_id action after_json = record {
  operation_id = operation_id;
  actor_id = actor_id;
  cluster_id = cluster_id;
  service_id = cluster_id;
  resource_type = "cluster";
  resource_id = cluster_id;
  action = action;
  before_json = none;
  after_json = some (obj after_json);
}

abbrev pub origin : RecoveryOrigin → MaintenanceState
origin from_closed = closed
origin from_reconciling = reconciling

-- const to = from === 'CLOSED' ? 'RECONCILING' : 'OPEN'
abbrev pub recovered : RecoveryOrigin → MaintenanceState
recovered from_closed = reconciling
recovered from_reconciling = opened

module _ (env : Env) where
  unfoldable pub valid_record : Option MaintenanceRecord → M MaintenanceRecord
  valid_record none = raise (service_unavailable "Cluster maintenance state is missing or invalid")
  valid_record (some r) = do
    throw_if (ltb r.generation 1) (conflict "Cluster maintenance generation is invalid")
    pure r

  unfoldable pub require_record : String → M MaintenanceRecord
  require_record cluster_id = do
    row ←
        try (query env (find_state cluster_id))
          (λ e. raise (service_unavailable "Cluster maintenance state cannot be verified"))
    valid_record row

  unfoldable pub write_event : String → String → String → Fields → M (Unit {0})
  write_event actor_id cluster_id action after_json = do
    operation_id ← random_uuid env
    statement env (λ _. audit (cluster_event operation_id actor_id cluster_id action after_json))

  unfoldable pub insert_missing : String → String → String → Option MaintenanceRecord → M (Unit {0})
  insert_missing cluster_id actor_id reason (some r) = pure tt
  insert_missing cluster_id actor_id reason none = do
    insertion env (insert_open cluster_id actor_id reason)
    write_event actor_id cluster_id "CLUSTER_MAINTENANCE_INITIALIZED" (
        field "state" (str "OPEN") (field "generation" (str "1") (field "reason" (str reason) end)))

  unfoldable pub initialize_open : String → String → String → M MaintenanceRecord
  initialize_open cluster_id actor_id reason = do
    throw_if (blank actor_id || blank reason || ltb 1024 (units reason))
        (conflict "Maintenance initializer requires actor and bounded reason")
    guarded_transaction env do
      registered ← query env (λ db. keep (λ r. r.cluster_id == cluster_id) db.cluster_registrations)
      throw_if (length registered != 1)
          (conflict "Cluster registration is required before maintenance initialization")
      existing ← query env (find_state cluster_id)
      insert_missing cluster_id actor_id reason existing
      commit env
    require_record cluster_id

  unfoldable pub compare_and_set_state :
      String → MaintenanceState → ℕ → MaintenanceState → String → String → M Bool
  compare_and_set_state cluster_id expected_state expected_generation target_state actor_id reason =
      do
        throw_if
            (not (allowed expected_state target_state) || unfit expected_generation actor_id reason)
            (conflict "Invalid maintenance state transition")
        affected ←
            execute env
              (set_state cluster_id expected_state expected_generation target_state actor_id reason)
        pure (affected == 1)

  -- `if (…) { rollback; return false }`, or the rest of the block.
  unfoldable pub unless_changed : Bool → M Bool → M Bool
  unless_changed true rest = do rollback env; pure false
  unless_changed false rest = rest

  unfoldable pub request_closing : String → ℕ → String → String → M Bool
  request_closing cluster_id generation actor_id reason = do
    throw_if (unfit generation actor_id reason) (conflict "Invalid maintenance close request")
    guarded_transaction env do
      affected ← execute env (set_state cluster_id opened generation closing actor_id reason)
      unless_changed (affected != 1) do
        write_event actor_id cluster_id "CLUSTER_MAINTENANCE_CLOSING" (
            field "previousState" (str "OPEN") (
              field "state" (str "CLOSING") (
                field "generation" (str (decimal (generation + 1)))
                  (field "reason" (str reason) end))))
        commit env
        pure true

  unfoldable pub count_unresolved_operations : String → M ℕ
  count_unresolved_operations cluster_id =
      try (query env (count_operations cluster_id))
        (λ e. raise (service_unavailable "Unresolved operation state cannot be verified"))

  unfoldable pub count_active_admissions : String → M ℕ
  count_active_admissions cluster_id =
      try (query env (count_active cluster_id))
        (λ e. raise (service_unavailable "In-flight admission evidence unavailable"))

  unfoldable pub require_open : String → M MaintenanceRecord
  require_open cluster_id = do
    record_ ← require_record cluster_id
    throw_if (not (state_eq record_.state opened))
        (conflict "Cluster is in maintenance; mutation is blocked")
    pure record_

  -- The lease that the caller holds, if it is of this cluster.
  unfoldable pub require_lease : String → Option MaintenanceLease → M MaintenanceLease
  require_lease cluster_id none =
      raise (conflict "Maintenance closure requires current Control Plane lease")
  require_lease cluster_id (some lease) = do
    throw_if (lease.cluster_id != cluster_id)
        (conflict "Maintenance closure requires current Control Plane lease")
    pure lease

  -- No unresolved evidence, and an acknowledgement of every manager.
  unfoldable pub require_evidence : String → ℕ → List String → String → String → M (Unit {0})
  require_evidence cluster_id generation expected unresolved missing = do
    proof ← query env (count_unresolved cluster_id)
    throw_if (some_unresolved proof) (conflict unresolved)
    acks ← query env (find_barriers cluster_id)
    throw_if (acks_differ acks expected generation) (conflict missing)

  unfoldable pub commit_closed :
      String → ℕ → String → String → List String → Option MaintenanceLease → M Bool
  commit_closed cluster_id generation actor_id reason expected_agent_ids held = do
    throw_if (unfit generation actor_id reason || roster_invalid expected_agent_ids)
        (conflict "Invalid maintenance closure evidence")
    lease ← require_lease cluster_id held
    guarded_transaction env do
      assert_owner env lease
      state ← query env (find_state cluster_id)
      unless_changed (not_at closing generation state) do
        require_evidence cluster_id generation (sort expected_agent_ids)
            "Maintenance has unresolved admission, operation or dispatch"
            "Complete manager barrier acknowledgement is missing"
        affected ← execute env (set_state cluster_id closing generation closed actor_id reason)
        throw_if (affected != 1) (conflict "Maintenance generation changed")
        write_event actor_id cluster_id "CLUSTER_MAINTENANCE_CLOSED" (
            field "generation" (str (decimal (generation + 1))) (
              field "reason" (str reason)
                (field "managerIds" (arr (strings_json (sort expected_agent_ids))) end)))
        commit env
        pure true

  -- What reopening asks for more; leaving CLOSED asks for none of it.
  unfoldable pub recovery_evidence : RecoveryOrigin → String → ℕ → List String → M (Unit {0})
  recovery_evidence from_closed cluster_id generation expected = pure tt
  recovery_evidence from_reconciling cluster_id generation expected =
      require_evidence cluster_id generation expected
        "Reconciliation has unresolved mutation evidence"
        "Reconciliation manager barrier ACK mismatch"

  unfoldable pub commit_recovery_transition :
      String → ℕ → String → String → RecoveryOrigin → MaintenanceLease → List String → M Bool
  commit_recovery_transition cluster_id generation actor_id reason from lease expected_agent_ids =
      do
        throw_if (lease.cluster_id != cluster_id || unfit generation actor_id reason)
            (conflict "Invalid maintenance recovery ownership")
        throw_if (state_eq (recovered from) opened && roster_invalid expected_agent_ids)
            (conflict "Recovery requires all manager acknowledgements")
        guarded_transaction env do
          assert_owner env lease
          rows ← query env (find_state cluster_id)
          unless_changed (not_at (origin from) generation rows) do
            recovery_evidence from cluster_id generation (sort expected_agent_ids)
            affected ←
                execute env
                  (set_state cluster_id (origin from) generation (recovered from) actor_id reason)
            throw_if (affected != 1) (conflict "Maintenance recovery changed")
            write_event actor_id cluster_id
                (if state_eq (recovered from) opened
                  then "CLUSTER_MAINTENANCE_OPEN"
                  else "CLUSTER_MAINTENANCE_RECONCILING")
                (field "from" (str (state_name (origin from))) (
                  field "to" (str (state_name (recovered from))) (
                    field "generation" (str (decimal (generation + 1)))
                      (field "reason" (str reason) end))))
            commit env
            pure true
