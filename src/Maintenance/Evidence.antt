-- ===== src/Maintenance/Evidence.antt =====
-- apps/api/src/clusters/cluster-maintenance.repository.ts: what commitClosed, and the
-- commitRecoveryTransition that reopens the cluster, have found where they return true.
pub mod Committed
pub mod Unresolved
pub mod Barriers
use docklane.Prelude.{
  not-false, ℕ, suc, ◌+◌, ◌≤◌, ◌<◌, ltb, ◌≡◌, refl, ap, sym, ◌∙◌, subst, String, String-eq, ℕ-eq,
  Bool, true, false, not, ◌&&◌, ◌||◌, ◌==◌, ◌!=◌, Option, none, some, arith, find-update_where,
  find-true, update_where, find, if◌then◌else◌, All, List, [], ◌∷◌, map, Bool-cases, inl, inr,
  eq_iff,
}
use mathlib.Core.Option
use docklane.Prelude.Json.{Fields}
use docklane.Store.{OperationRecord, NodeOperationRecord, Db}
use docklane.Store.Operations.{audit}
use docklane.Exec.{
  ok, World, Env, M, Failure, conflict, pure, throw_if, ◌>>=◌, ◌>>◌, commit, rollback,
}
use docklane.Exec.Atomic.{durable}
use docklane.Exec.Execute.{execute}
use docklane.Exec.Triple.{
  Triple, Triple-bind, Triple-given, Triple-fact, Triple-execute, Triple-throw_if, Triple-pure,
  Triple-raise, Triple-weaken,
}
use docklane.Exec.Triple.Transactions.{
  Any, Triple-commit, Triple-random_uuid, Triple-statement, Triple-guarded_transaction,
}
use docklane.Exec.Triple.Fixed.{At, Triple-guard, Triple-read, Triple-read_now, returned}
use docklane.Lock.{sort}
use docklane.Maintenance.{
  MaintenanceState, opened, closing, closed, reconciling, from_reconciling, MaintenanceRecord,
  MaintenanceLease, ControlLease, BarrierState, AgentBarrier,
}
use docklane.Maintenance.Statements.{
  find_state, find_lease, is_held_by, set_state, is_at, advance, state_eq, count_active,
  count_operations, count_dispatches,
}
use docklane.Maintenance.Lease.{owns, assert_owner}
use docklane.Maintenance.Evidence.Unresolved.{InFlight, Lasting, HasNotEnded}
use docklane.Maintenance.Evidence.Barriers.{barrier_of, acks-equal, IsBlocked}
use docklane.Maintenance.Writes.{ok_second}
use docklane.Maintenance.Cycle.{Point, point, point_of}
use docklane.Maintenance.Followed.{state_eq-eq}
use docklane.Maintenance.Repository.{
  find_barriers, acks_differ, count_unresolved, not_at, require_lease, require_evidence,
  write_event, unless_changed, commit_closed, recovery_evidence, commit_recovery_transition,
  is_acknowledged,
}

-- The row of the lease's cluster names its holder and its token, and it had not expired at a time that
-- is no earlier than `start`.
pub record Live (start : ℕ) (lease : MaintenanceLease) (db : Db) : Type 0 where
  pub row : ControlLease
  pub found : find_lease lease.cluster_id db ≡ some row
  pub holder : row.holder_id ≡ lease.holder_id
  pub token : row.fence_token ≡ lease.token
  pub now : ℕ
  pub since : start ≤ now
  pub unexpired : now < row.expires_at

held_row :
    (start now : ℕ) (x : MaintenanceLease) (o : Option ControlLease) (db : Db)
    → find_lease x.cluster_id db ≡ o
    → start ≤ now
    → elim o [ none ↦ false | some r ↦ is_held_by x r && ltb now r.expires_at ] ≡ true
    → Live start x db
held_row start now x none db e h p = cc
held_row start now x (some r) db e h p = record {
  row = r;
  found = e;
  holder = ground (arith, eq_iff r.holder_id x.holder_id);
  token = ground arith;
  now = now;
  since = h;
  unexpired = ground arith;
}

owns-Live :
    (start now : ℕ) (x : MaintenanceLease) (db : Db)
    → start ≤ now
    → owns x now db ≡ true
    → Live start x db
unfolding owns
owns-Live start now x db h p = held_row start now x _ db refl h p

-- No admission of the cluster lasts, no operation of it has not ended, no dispatch of it is under way,
-- its managers have acknowledged the generation, and the lease
-- is the cluster's, not expired when it is checked.
pub record Evidence (c : String) (s : MaintenanceState) (g : ℕ) (ids : List String)
    (lease : MaintenanceLease) (start : ℕ) (db : Db) : Type 0 where
  pub state : point c db ≡ some (s, g)
  pub no_admission : All (λ a. ¬ Lasting c db a) db.active_admissions
  pub no_operation :
      All (λ (r : OperationRecord). ¬ HasNotEnded c r.cluster_id r.status) db.operations
  pub no_node_operation :
      All (λ (r : NodeOperationRecord). ¬ HasNotEnded c r.cluster_id r.status) db.node_operations
  pub no_dispatch : All (λ d. ¬ InFlight c db d) db.maintenance_dispatches
  pub acknowledged :
      map barrier_of (find_barriers c db)
      ≡ map (λ id. (id, g, BarrierState.acknowledged)) (sort ids)
  pub blocked : All (IsBlocked c g) db.agent_barriers
  pub cluster : lease.cluster_id ≡ c
  pub live : Live start lease db

pub at_point :
    (s : MaintenanceState) (g : ℕ) (o : Option MaintenanceRecord)
    → not_at s g o ≡ false
    → ◌≡◌ {A = Point} (Option.map (λ r. (r.state, r.generation)) o) (some (s, g))
at_point s g none h = cc
at_point s g (some r) h =
    let e : r.state ≡ s = state_eq-eq r.state s (ground arith) in
    let f : r.generation ≡ g = ground arith in cc

state_eq-true : (s : MaintenanceState) → state_eq s s ≡ true
state_eq-true opened = refl
state_eq-true closing = refl
state_eq-true closed = refl
state_eq-true reconciling = refl

hit_row :
    (c : String) (s : MaintenanceState) (g : ℕ) (r : MaintenanceRecord)
    → (r.cluster_id == c) ≡ true
    → ◌≡◌ {A = Point} (some (r.state, r.generation)) (some (s, g))
    → is_at c s g r ≡ true
hit_row c s g r h e =
    let same : r.state ≡ s = cc in
    let at : r.generation ≡ g = cc in
    let hit : state_eq r.state s ≡ true =
      subst (λ x. state_eq x s ≡ true) (sym same) (state_eq-true s) in
    ground arith

advanced_point :
    (c : String) (s : MaintenanceState) (g : ℕ) (t : MaintenanceState) (a x : String) (now : ℕ)
    (o : Option MaintenanceRecord)
    → ((r : MaintenanceRecord) → o ≡ some r → (r.cluster_id == c) ≡ true)
    → point_of o ≡ some (s, g)
    → point_of (Option.map (λ r. if is_at c s g r then advance t a x now r else r) o)
      ≡ some (t, suc g)
advanced_point c s g t a x now none f h = cc
advanced_point c s g t a x now (some r) f h =
    let at : r.generation ≡ g = cc in
    rw (hit_row c s g r (f r refl) h) (ap (λ n. some (t, n)) (omega (arith, at)))

module _ (env : Env) (c : String) (start : ℕ) (db : Db) where
  set_state-point :
      (s : MaintenanceState) (g : ℕ) (t : MaintenanceState) (a x : String) (now : ℕ) (d : Db)
      (n : ℕ) (d' : Db)
      → d ≡ db
      → point c db ≡ some (s, g)
      → set_state c s g t a x now d ≡ ok (n, d')
      → point c d' ≡ some (t, suc g)
  unfolding set_state find_state
  set_state-point s g t a x now d n d' same h e =
      ap (λ y. point_of (find (λ r. r.cluster_id == c) y.maintenance_states)) (ok_second e)
      ∙ ap point_of (
          find-update_where (is_at c s g) (λ r. r.cluster_id == c) (advance t a x now) (λ r. refl)
            d.maintenance_states)
      ∙ advanced_point c s g t a x now _
          (λ r f. find-true (λ r. r.cluster_id == c) d.maintenance_states r f)
          (subst (λ y. point_of (find (λ r. r.cluster_id == c) y.maintenance_states) ≡ some (s, g))
            (sym same) h)

  write_event-point :
      (p : Point) (a y : String) (f : Fields)
      → Triple (λ w. point c w.db ≡ p) (write_event env a c y f) (λ _ w. point c w.db ≡ p) Any
  unfolding write_event find_state audit
  write_event-point p a y f =
      Triple-bind _ _ (Triple-random_uuid env (λ d. point c d ≡ p))
        λ id. Triple-statement env (λ d. point c d ≡ p) (λ d. point c d ≡ p) _ (λ now d q. q)

  -- The statements that change the state, record it and commit.
  pub set_state-committed :
      (s : MaintenanceState) (g : ℕ) (t : MaintenanceState) (a x y : String) (e : Failure)
      (f : Fields)
      → point c db ≡ some (s, g)
      → Triple
          (At start db)
          (do
            affected ← execute env (set_state c s g t a x)
            throw_if (not (affected == 1)) e
            write_event env a c y f
            commit env
            pure true)
          (λ _ w. (w.saved ≡ none) × (point c w.db ≡ some (t, suc g)))
          Any
  set_state-committed s g t a x y e f h =
      Triple-bind {R = λ _ w. point c w.db ≡ some (t, suc g)} _ _
        (Triple-execute env _ (λ w p. tt) (λ w n d p k. tt)
          (λ w n d p k. set_state-point s g t a x w.now w.db n d p.1 h k))
        λ n. Triple-bind _ _ (Triple-throw_if _ _ (λ w p. tt)) λ _.
          Triple-given _ (λ w p. p.1)
            (Triple-bind _ _ (write_event-point _ a y f) λ _.
              Triple-bind _ _ (Triple-commit env (λ d. point c d ≡ some (t, suc g)))
                (λ _. Triple-pure true (λ w p. p)))

  pub assert_owner-Live :
      (x : MaintenanceLease)
      → Triple (At start db) (assert_owner env x) (λ _ w. Live start x db × At start db w) Any
  unfolding assert_owner
  assert_owner-Live x = Triple-read_now env start db (owns x) _ λ now late.
      Triple-weaken _ (λ _ w p. (owns-Live start now x db late (not-false _ p.0), p.1))
        (Triple-throw_if _ _ (λ w p. tt))

  -- What `require_evidence` has found.
  abbrev pub Resolved : ℕ → List String → Type 0
  Resolved g ids =
      (count_active c db ≡ 0)
      × (count_operations c db ≡ 0)
      × (count_dispatches c db ≡ 0)
      × (map barrier_of (find_barriers c db) ≡ map (λ id. (id, g, BarrierState.acknowledged)) ids)

  none_unresolved : (n m k : ℕ) → (n != 0 || m != 0 || k != 0) ≡ false → (n ≡ 0) × (m ≡ 0) × (k ≡ 0)
  none_unresolved n m k h = (ground arith, ground arith, ground arith)

  pub require_evidence-Resolved :
      (g : ℕ) (ids : List String) (u m : String)
      → Triple
          (At start db)
          (require_evidence env c g ids u m)
          (λ _ w. Resolved g ids × At start db w)
          Any
  unfolding require_evidence count_unresolved
  require_evidence-Resolved g ids u m = Triple-read env start db (count_unresolved c) _ (
      Triple-guard start db _ _ _ λ zero_.
        let (i, j, k) = none_unresolved _ _ _ zero_ in
        Triple-read env start db (find_barriers c) _ (
          Triple-weaken _ (λ _ w p. ((i, j, k, acks-equal _ ids g p.0), p.1))
            (Triple-throw_if _ _ (λ w p. tt))))
