-- ===== src/Examples/Maintenance.antt =====
-- The maintenance of a sample cluster: apps/api/src/clusters.
use docklane.Prelude.{
  some_inj, subst, none, arith, ◌⊎◌, ℕ, suc, ◌≡◌, ◌≤◌, refl, String, true, false, List, [], ◌∷◌,
  some, find, keep, update_where, matched, contains, map, All,
}
use docklane.Prelude.Json.{null}
use docklane.Store.{NodeOperationType}
use docklane.Store.Operations.{audit}
use docklane.Exec.{
  dispatch, dispatch_node, NodeDispatch, requests, ok, World, pure, raise, try, throw_if, ◌>>=◌,
  query, statement, insertion, begin_transaction, commit,
}
use docklane.Exec.Atomic.{durable}
use docklane.Exec.Uuid.{random_uuid}
use docklane.Exec.Execute.{execute, query_now, guarded_transaction}
use docklane.Lock.{sort, unique, insert_sorted}
use docklane.Maintenance.{
  opened, closing, closed, reconciling, from_reconciling, MaintenanceState, MaintenanceRecord,
  ControlLease, MaintenanceLease, EvidenceType, BarrierState, AgentBarrier, DispatchPhase,
  MaintenanceDispatch,
}
use docklane.Maintenance.Input.{blank, blank_text, is_space, units, text_units, unfit}
use docklane.Maintenance.Statements.{
  find_state, find_lease, set_state, retake, is_resolved, count_active, count_operations,
  count_dispatches,
}
use docklane.Maintenance.Lease.{owns, assert_owner, acquire, take_over, lease_row}
use docklane.Maintenance.Repository.{
  require_lease, roster_invalid, unless_changed, require_evidence, count_unresolved, acks_differ,
  find_barriers, order_by_agent, insert_by_agent, write_event, commit_closed, recovery_evidence,
  commit_recovery_transition, request_closing,
}
use docklane.Maintenance.Journal.{Lineage, execute_dispatch}
use docklane.Maintenance.Sent.{SentOpen, execute_dispatch-SentOpen}
use docklane.Maintenance.Live.{acquire-live}
use docklane.Maintenance.Fencing.{fence}
use docklane.Maintenance.Closed.{commit_closed-fences}
use docklane.Maintenance.Evidence.Unresolved.{InFlight}
use docklane.Exec.Triple.{Outcome}
use docklane.Maintenance.Cycle.{point, Reaches, generation, OnCycle, state_at}
use docklane.Maintenance.Runs.{start, closing_requested}
use docklane.Maintenance.Followed.{Runs-Followed, Runs-generation, Runs-OnCycle}
use docklane.Maintenance.Fencing.Acquired.{acquire-fences}
use docklane.Maintenance.Evidence.{Evidence}
use docklane.Maintenance.Evidence.Barriers.{barrier_of, IsBlocked}
use docklane.Maintenance.Evidence.Committed.{
  commit_closed-Evidence, commit_recovery_transition-Evidence,
}
use docklane.Examples.Sample.{env, empty, world, sent}

abbrev row : MaintenanceState → ℕ → MaintenanceRecord
row state generation = record {
  cluster_id = "c1";
  state = state;
  generation = generation;
  owner_id = "ann";
  reason = "upgrade";
  changed_by = "ann";
  changed_at = 0;
}

abbrev lease : MaintenanceLease
lease = record { cluster_id = "c1"; holder_id = "h1"; token = 3 }

abbrev lease_until : ℕ → ControlLease
lease_until expires_at = record {
  cluster_id = "c1";
  holder_id = "h1";
  fence_token = 3;
  expires_at = expires_at;
}

abbrev barrier : String → ℕ → AgentBarrier
barrier agent_id generation = record {
  cluster_id = "c1";
  agent_id = agent_id;
  generation = generation;
  state = BarrierState.acknowledged;
}

abbrev uncertain : MaintenanceDispatch
uncertain = record {
  id = "d1";
  cluster_id = "c1";
  generation = 1;
  agent_id = "a1";
  operation_id = "op1";
  phase = DispatchPhase.uncertain;
}

-- Two managers have acknowledged the generation, and the lease lasts until `expires_at`.
abbrev maintained : MaintenanceState → ℕ → ℕ → World
maintained state generation expires_at = record (world []) {
  db = record empty {
    maintenance_states = row state generation ∷ [];
    control_leases = lease_until expires_at ∷ [];
    agent_barriers = barrier "a2" generation ∷ barrier "a1" generation ∷ [];
    maintenance_dispatches = uncertain ∷ [];
    evidence_resolutions =
        record {
          id = "r1";
          cluster_id = "c1";
          evidence_type = EvidenceType.dispatch;
          evidence_id = "d1";
          actor_id = "ann";
          reason = "seen unchanged";
          evidence_json = null;
        }
        ∷ [];
  };
}

abbrev managers : List String
managers = "a1" ∷ "a2" ∷ []

closes :
    (commit_closed env "c1" 2 "ann" "upgrade" managers (some lease) (maintained closing 2 9000)).0
    ≡ ok true
unfolding commit_closed unfit blank blank_text is_space contains units text_units roster_invalid
    unique require_lease guarded_transaction begin_transaction assert_owner query_now owns
    find_lease find query find_state unless_changed require_evidence count_unresolved count_active
    count_operations count_dispatches is_resolved keep find_barriers order_by_agent insert_by_agent
    acks_differ sort insert_sorted execute set_state update_where matched write_event random_uuid
    statement insertion audit commit pure raise try throw_if ◌>>=◌
closes = refl

commit_closed-Evidence_example :
    (held : MaintenanceLease) × (some lease ≡ some held)
    × Evidence "c1" closing 2 managers held
        (maintained closing 2 9000).now
        (maintained closing 2 9000).db
    × (point "c1" (
          durable
            (commit_closed env "c1" 2 "ann" "upgrade" managers
              (some lease)
              (maintained closing 2 9000)).1)
        ≡ some (closed, suc 2))
commit_closed-Evidence_example =
    commit_closed-Evidence env "c1" 2 "ann" "upgrade" managers (some lease)
      (maintained closing 2 9000) closes

reopens :
    (commit_recovery_transition env "c1" 4 "ann" "upgraded" from_reconciling lease managers
      (maintained reconciling 4 9000)).0
    ≡ ok true
unfolding commit_recovery_transition recovery_evidence unfit blank blank_text is_space contains
    units text_units roster_invalid unique require_lease guarded_transaction begin_transaction
    assert_owner query_now owns find_lease find query find_state unless_changed require_evidence
    count_unresolved count_active count_operations count_dispatches is_resolved keep find_barriers
    order_by_agent insert_by_agent acks_differ sort insert_sorted execute set_state update_where
    matched write_event random_uuid statement insertion audit commit pure raise try throw_if ◌>>=◌
reopens = refl

commit_recovery_transition-Evidence_example :
    Evidence "c1" reconciling 4 managers lease
      (maintained reconciling 4 9000).now
      (maintained reconciling 4 9000).db
    × (point "c1" (
          durable
            (commit_recovery_transition env "c1" 4 "ann" "upgraded" from_reconciling lease managers
              (maintained reconciling 4 9000)).1)
        ≡ some (opened, suc 4))
commit_recovery_transition-Evidence_example =
    commit_recovery_transition-Evidence env "c1" 4 "ann" "upgraded" lease managers
      (maintained reconciling 4 9000) reopens

-- The sample, OPEN, after a request to close it.
abbrev closing_world : World
closing_world = (request_closing env "c1" 1 "ann" "upgrade" (maintained opened 1 9000)).1

Runs-Followed_example :
    Reaches (point "c1" (maintained opened 1 9000).db) (point "c1" (durable closing_world))
Runs-Followed_example =
    Runs-Followed "c1" (maintained opened 1 9000) closing_world refl
      (closing_requested start env "c1" 1 "ann" "upgrade")

Runs-generation_example :
    (generation (point "c1" (maintained opened 1 9000).db)
      ≤ generation (point "c1" (durable closing_world)))
    × (generation (point "c1" (maintained opened 1 9000).db)
          ≡ generation (point "c1" (durable closing_world))
        → point "c1" (maintained opened 1 9000).db ≡ point "c1" (durable closing_world))
Runs-generation_example =
    Runs-generation "c1" (maintained opened 1 9000) closing_world refl
      (closing_requested start env "c1" 1 "ann" "upgrade")

on_cycle : OnCycle (point "c1" (maintained opened 1 9000).db)
unfolding find_state find state_at
on_cycle = refl

Runs-OnCycle_example : OnCycle (point "c1" (durable closing_world))
Runs-OnCycle_example =
    Runs-OnCycle "c1" (maintained opened 1 9000) closing_world refl on_cycle
      (closing_requested start env "c1" 1 "ann" "upgrade")

abbrev taken_over : MaintenanceLease
taken_over = record { cluster_id = "c1"; holder_id = "uuid"; token = 4 }

owned : owns lease 500 (maintained opened 1 900).db ≡ true
unfolding owns find_lease find
owned = refl

retaken : (acquire env "c1" 30 (maintained opened 1 900)).0 ≡ ok taken_over
unfolding acquire take_over lease_row query_now find_lease find guarded_transaction
    begin_transaction execute retake update_where matched random_uuid commit pure try throw_if ◌>>=◌
retaken = refl

acquire-fences_example :
    owns lease 700 (durable (acquire env "c1" 30 (maintained opened 1 900)).1) ≡ false
acquire-fences_example =
    acquire-fences env lease taken_over 30 500 700 (maintained opened 1 900) _ owned retaken start

-- A mutation that was admitted before the closure.
abbrev early : Lineage
early = record { cluster_id = "c1"; generation = 1; agent_id = "a1"; operation_id = "op1" }

abbrev closed_world : World
closed_world =
    (commit_closed env "c1" 2 "ann" "upgrade" managers (some lease) (maintained closing 2 9000)).1

abbrev drained : NodeDispatch
drained = record {
  operation_id = "op1";
  node_id = "n1";
  type = NodeOperationType.drain;
  expected_version = 3;
  expected_spec_hash = "before";
  target_spec_hash = "after";
  expected_service_ids = some [];
  target_labels = none;
}

commit_closed-fences_example :
    (map barrier_of (find_barriers "c1" (maintained closing 2 9000).db)
      ≡ map (λ id. (id, 2, BarrierState.acknowledged)) (sort managers))
    × All (IsBlocked "c1" 2) (maintained closing 2 9000).db.agent_barriers
    × All
        (λ row. ¬ InFlight "c1" (maintained closing 2 9000).db row)
        (maintained closing 2 9000).db.maintenance_dispatches
    × (requests (execute_dispatch env early none (dispatch env sent) (λ e. false) closed_world).1
        ≡ requests closed_world)
    × (requests
          (execute_dispatch env early none (dispatch_node env drained) (λ e. false) closed_world).1
        ≡ requests closed_world)
commit_closed-fences_example =
    commit_closed-fences env env 2 "ann" "upgrade" managers (some lease) (maintained closing 2 9000)
      closed_world early none sent drained (λ e. false) closes start (omega arith)

execute_dispatch-SentOpen_example :
    Outcome
      (λ _. SentOpen early sent (maintained opened 1 9000))
      (λ w'.
        (w'.dispatched ≡ (maintained opened 1 9000).dispatched)
        ⊎ SentOpen early sent (maintained opened 1 9000) w')
      (execute_dispatch env early none
        (dispatch env sent)
        (λ e. false)
        (maintained opened 1 9000)).0
      (execute_dispatch env early none
        (dispatch env sent)
        (λ e. false)
        (maintained opened 1 9000)).1
execute_dispatch-SentOpen_example =
    execute_dispatch-SentOpen env early none sent (λ e. false) (maintained opened 1 9000)

expired_row :
    (r : ControlLease) → find_lease "c1" (maintained opened 1 900).db ≡ some r → r.expires_at ≤ 1000
unfolding find_lease find
expired_row r e = subst (λ (x : ControlLease). x.expires_at ≤ 1000) (some_inj e) (omega arith)

acquire-live_example :
    (acquire env "c1" 30 (maintained opened 1 900)).0
    ≡ ok (record {
      cluster_id = "c1";
      holder_id = "uuid";
      token = suc (fence "c1" (maintained opened 1 900).db);
    })
acquire-live_example =
    acquire-live env "c1" 30 (maintained opened 1 900) (omega arith) (omega arith) (λ n. refl)
      expired_row
