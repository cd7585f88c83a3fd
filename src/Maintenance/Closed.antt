-- ===== src/Maintenance/Closed.antt =====
-- apps/api/src/clusters: the closure of a cluster against the mutations that are sent to it.
use docklane.Prelude.{
  ℕ, ◌≤◌, ◌≡◌, refl, ap, map, All, String, String-eq, Bool, true, false, inl, inr, Option, none,
  some, List, arith, ℕ-eq,
}
use mathlib.Core.Option
use docklane.Store.{Db}
use docklane.Exec.{
  Result, ok, err, Failure, World, Env, Dispatch, NodeDispatch, dispatch, dispatch_node, Requests,
  requests,
}
use docklane.Exec.Triple.{Outcome}
use docklane.Exec.Triple.Fixed.{returned}
use docklane.Maintenance.{opened, MaintenanceRecord, MaintenanceLease, BarrierState}
use docklane.Maintenance.Statements.{find_state, is_at}
use docklane.Maintenance.Repository.{commit_closed, find_barriers}
use docklane.Maintenance.Journal.{AdmissionScope, Lineage, open_at, execute_dispatch}
use docklane.Maintenance.Cycle.{point, generation, Reaches-generation}
use docklane.Maintenance.Runs.{Runs}
use docklane.Maintenance.Followed.{Runs-Followed_seen}
use docklane.Maintenance.Evidence.Committed.{WhenTrue, commit_closed-Committed}
use docklane.Maintenance.Sent.{
  BecameOpen, Ended, dispatch-Makes, dispatch_node-Makes, execute_dispatch-Ended,
}
use docklane.Maintenance.Evidence.Barriers.{barrier_of, IsBlocked}
use docklane.Maintenance.Evidence.Unresolved.{InFlight}
use docklane.Lock.{sort}

opened_generation :
    (c : String) (g : ℕ) (o : Option MaintenanceRecord)
    → elim o [ none ↦ false | some r ↦ is_at c opened g r ] ≡ true
    → generation (Option.map (λ r. (r.state, r.generation)) o) ≡ g
opened_generation c g none h = cc
opened_generation c g (some r) h = ground arith

open_at-generation :
    (c : String) (g : ℕ) (db : Db) → open_at c g db ≡ true → generation (point c db) ≡ g
unfolding open_at find_state
open_at-generation c g db h = opened_generation c g (find_state c db) h

unsent :
    {A : Type 0} (x : Lineage) (l1 : Requests) (w : World) (r : Result A) (w' : World)
    → ¬ (open_at x.cluster_id x.generation w.db ≡ true)
    → Outcome (λ _. BecameOpen x l1 w) (Ended x l1 w) r w'
    → requests w' ≡ requests w
unsent x l1 w (ok a) w' n p = absurd (n p.0)
unsent x l1 w (err e) w' n (inl p) = p
unsent x l1 w (err e) w' n (inr p) = absurd (n p.0)

-- Where commitClosed has returned true for a generation, the barriers of the cluster were those of
-- the managers expected, each ACKNOWLEDGED at the generation, and no dispatch of the cluster was
-- under way: none was PREPARED, SENDING or UNCERTAIN without evidence that resolves it. And no
-- request for a service or a node that was admitted at that generation or before is sent any more:
-- not after any operations of the maintenance that follow, and whatever the server and the agent
-- answer.
pub commit_closed-fences :
    (env sender : Env) (g : ℕ) (a reason : String) (ids : List String)
    (held : Option MaintenanceLease) (w w' : World) (x : Lineage) (scope : Option AdmissionScope)
    (d : Dispatch) (n : NodeDispatch) (definite : Failure → Bool)
    → (commit_closed env x.cluster_id g a reason ids held w).0 ≡ ok true
    → Runs (commit_closed env x.cluster_id g a reason ids held w).1 w'
    → x.generation ≤ g
    → (map barrier_of (find_barriers x.cluster_id w.db)
        ≡ map (λ id. (id, g, BarrierState.acknowledged)) (sort ids))
      × All (IsBlocked x.cluster_id g) w.db.agent_barriers
      × All (λ row. ¬ InFlight x.cluster_id w.db row) w.db.maintenance_dispatches
      × (requests (execute_dispatch sender x scope (dispatch sender d) definite w').1 ≡ requests w')
      × (requests (execute_dispatch sender x scope (dispatch_node sender n) definite w').1
          ≡ requests w')
commit_closed-fences env sender g a reason ids held w w' x scope d n definite h r old =
    let (lease, mine, k) =
      returned (WhenTrue _) _ _ true h
        ((commit_closed-Committed env x.cluster_id g a reason ids held w.now w.db).at w
          (omega arith, refl))
        refl in
    let (le, same) = Reaches-generation _ _ (Runs-Followed_seen x.cluster_id _ w' k.committed r) in
    let at = ap generation k.next in
    let later : ¬ (open_at x.cluster_id x.generation w'.db ≡ true) = λ o.
      absurd (omega (arith, le, at, old, open_at-generation x.cluster_id x.generation w'.db o)) in
    (
      k.evidence.acknowledged,
      k.evidence.blocked,
      k.evidence.no_dispatch,
      unsent x _ w' _ _ later (
          (execute_dispatch-Ended x _ w' sender scope _ definite
              (dispatch-Makes sender d (requests w'))).at
            w' (refl, refl)),
      unsent x _ w' _ _ later (
          (execute_dispatch-Ended x _ w' sender scope _ definite
              (dispatch_node-Makes sender n (requests w'))).at
            w' (refl, refl)),
    )
