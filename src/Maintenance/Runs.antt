-- ===== src/Maintenance/Runs.antt =====
-- Every sequence of operations of the maintenance, each of them whole, over any answers of the agent,
-- of the database server and of the clock: the methods of apps/api/src/clusters that the controllers
-- call, and the mutations that are admitted, recorded and sent under the lock of their resource.
use docklane.Prelude.{ℕ, String, Bool, List, Option}
use docklane.Store.{Db}
use docklane.Exec.{World, Env, Requests, Failure, Dispatch, NodeDispatch, dispatch, dispatch_node}
use docklane.Exec.Keeps.Tables.{Holds, Holds-dispatch}
use docklane.Exec.Meets.{Meets-dispatch_node, Keeps-of_Meets}
use docklane.Maintenance.{MaintenanceState, RecoveryOrigin, MaintenanceLease}
use docklane.Maintenance.Lease.{acquire, release}
use docklane.Maintenance.Repository.{
  initialize_open, compare_and_set_state, request_closing, commit_closed,
  commit_recovery_transition,
}
use docklane.Maintenance.Journal.{Lineage, execute_dispatch}
use docklane.Maintenance.Admission.{
  Settings, with_registered_service_lock, with_registered_node_and_service_locks,
}
use docklane.Maintenance.Keeps.{Stable}
use docklane.Maintenance.Keeps.Leasing.{acquire-Keeps, release-Keeps}
use docklane.Maintenance.Keeps.Closing.{
  initialize_open-Keeps, compare_and_set_state-Keeps, request_closing-Keeps, commit_closed-Keeps,
  commit_recovery_transition-Keeps,
}
use docklane.Maintenance.Keeps.Sending.{
  execute_dispatch-Keeps, with_registered_service_lock-Keeps,
  with_registered_node_and_service_locks-Keeps,
}

-- One operation after another, each in an environment of its own.
pub data Runs : World → World → Type 0 where
  start : {w : World} → Runs w w
  initialized :
      {w w' : World}
      → Runs w w'
      → (env : Env) (cluster actor reason : String)
      → Runs w (initialize_open env cluster actor reason w').1
  changed :
      {w w' : World}
      → Runs w w'
      → (env : Env) (cluster : String) (from : MaintenanceState) (generation : ℕ)
        (to : MaintenanceState) (actor reason : String)
      → Runs w (compare_and_set_state env cluster from generation to actor reason w').1
  closing_requested :
      {w w' : World}
      → Runs w w'
      → (env : Env) (cluster : String) (generation : ℕ) (actor reason : String)
      → Runs w (request_closing env cluster generation actor reason w').1
  closed_committed :
      {w w' : World}
      → Runs w w'
      → (env : Env) (cluster : String) (generation : ℕ) (actor reason : String)
        (agents : List String) (lease : Option MaintenanceLease)
      → Runs w (commit_closed env cluster generation actor reason agents lease w').1
  recovery_committed :
      {w w' : World}
      → Runs w w'
      → (env : Env) (cluster : String) (generation : ℕ) (actor reason : String)
        (from : RecoveryOrigin) (lease : MaintenanceLease) (agents : List String)
      → Runs w
          (commit_recovery_transition env cluster generation actor reason from lease agents w').1
  acquired :
      {w w' : World}
      → Runs w w'
      → (env : Env) (cluster : String) (ttl : ℕ) → Runs w (acquire env cluster ttl w').1
  released :
      {w w' : World}
      → Runs w w'
      → (env : Env) (lease : MaintenanceLease) → Runs w (release env lease w').1
  sent :
      {w w' : World}
      → Runs w w'
      → (env : Env) (settings : Settings) (cluster service : String) (lineage : Lineage)
        (request : Dispatch) (definite : Failure → Bool)
      → Runs w
          (with_registered_service_lock env settings cluster service
            (λ scope. execute_dispatch env lineage scope (dispatch env request) definite)
            w').1
  node_sent :
      {w w' : World}
      → Runs w w'
      → (env : Env) (settings : Settings) (cluster node : String) (services : List String)
        (lineage : Lineage) (request : NodeDispatch) (definite : Failure → Bool)
      → Runs w
          (with_registered_node_and_service_locks env settings cluster node services
            (λ scope. execute_dispatch env lineage scope (dispatch_node env request) definite)
            w').1

-- What the statements keep holds in the end.
pub Runs-Holds :
    {Q : Requests → Db → Type 0} {w w' : World} → Stable Q → Holds Q w → Runs w w' → Holds Q w'
Runs-Holds s h start = h
Runs-Holds s h (initialized r env c a x) =
    (initialize_open-Keeps env s c a x).at _ (Runs-Holds s h r)
Runs-Holds s h (changed r env c from g to a x) =
    (compare_and_set_state-Keeps env s c from g to a x).at _ (Runs-Holds s h r)
Runs-Holds s h (closing_requested r env c g a x) =
    (request_closing-Keeps env s c g a x).at _ (Runs-Holds s h r)
Runs-Holds s h (closed_committed r env c g a x ids l) =
    (commit_closed-Keeps env s c g a x ids l).at _ (Runs-Holds s h r)
Runs-Holds s h (recovery_committed r env c g a x f l ids) =
    (commit_recovery_transition-Keeps env s c g a x f l ids).at _ (Runs-Holds s h r)
Runs-Holds s h (acquired r env c ttl) = (acquire-Keeps env s c ttl).at _ (Runs-Holds s h r)
Runs-Holds s h (released r env l) = (release-Keeps env s l).at _ (Runs-Holds s h r)
Runs-Holds s h (sent r env settings c v x d definite) =
    (with_registered_service_lock-Keeps env s settings c v _ (λ scope.
        execute_dispatch-Keeps env s x scope _ definite (Holds-dispatch env d (s.sends d)))).at
      _ (Runs-Holds s h r)
Runs-Holds s h (node_sent r env settings c v ids x d definite) =
    (with_registered_node_and_service_locks-Keeps env s settings c v ids _ (λ scope.
        execute_dispatch-Keeps env s x scope _ definite
          (Keeps-of_Meets _ (Meets-dispatch_node env d (s.node_sends d))))).at
      _ (Runs-Holds s h r)
