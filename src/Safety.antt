-- ===== src/Safety.antt =====
-- Every sequence of requests for services and nodes (scale, restart, drain, activate, labels) and of
-- recoveries at start-up, each of them whole, over any answers of the agent, of the database server
-- and of the clock: apps/api/src/operations/mutation.service.ts and
-- apps/api/src/operations/node-mutation.service.ts.
pub mod Traced
pub mod Ended
use docklane.Prelude.{String}
use docklane.Store.{LabelPatch, Db}
use docklane.Exec.{Env, Requests, World}
use docklane.Exec.Keeps.Tables.{Holds}
use docklane.Traces.{Admits}
use docklane.Mutation.Service.{
  Principal, ScaleServiceRequest, RestartServiceRequest, scale, restart,
  on_application_bootstrap as recover_services,
}
use docklane.Mutation.Keeps.Handlers.{on_application_bootstrap-Keeps as recover_services-Keeps}
use docklane.Mutation.Keeps.Executing.{scale-Keeps, restart-Keeps}
use docklane.Node.Service.{
  NodeMutationRequest, drain, activate, labels, on_application_bootstrap as recover_nodes,
}
use docklane.Node.Keeps.Handlers.{on_application_bootstrap-Keeps as recover_nodes-Keeps}
use docklane.Node.Keeps.Executing.{mutate-Keeps}

-- One request or recovery after another, each in an environment of its own.
pub data Runs : World → World → Type 0 where
  start : {w : World} → Runs w w
  scaled :
      {w w' : World}
      → Runs w w'
      → (env : Env) (cluster service : String) (input : ScaleServiceRequest) (principal : Principal)
      → Runs w (scale env cluster service input principal w').1
  restarted :
      {w w' : World}
      → Runs w w'
      → (env : Env) (cluster service : String) (input : RestartServiceRequest)
        (principal : Principal)
      → Runs w (restart env cluster service input principal w').1
  recovered : {w w' : World} → Runs w w' → (env : Env) → Runs w (recover_services env w').1
  drained :
      {w w' : World}
      → Runs w w'
      → (env : Env) (cluster node : String) (input : NodeMutationRequest) (principal : Principal)
      → Runs w (drain env cluster node input principal w').1
  activated :
      {w w' : World}
      → Runs w w'
      → (env : Env) (cluster node : String) (input : NodeMutationRequest) (principal : Principal)
      → Runs w (activate env cluster node input principal w').1
  labelled :
      {w w' : World}
      → Runs w w'
      → (env : Env) (cluster node : String) (input : NodeMutationRequest) (patch : LabelPatch)
        (principal : Principal)
      → Runs w (labels env cluster node input patch principal w').1
  nodes_recovered : {w w' : World} → Runs w w' → (env : Env) → Runs w (recover_nodes env w').1

-- Every invariant that admits an intent and its request holds in the end.
pub Runs-Holds :
    {Ready NodeReady : String → Requests → Type 0} {Q : Requests → Db → Type 0}
    → Admits Ready NodeReady Q
    → (w w' : World) → Runs w w'
    → Holds Q w
    → Holds Q w'
unfolding drain activate labels
Runs-Holds admits w _ start h = h
Runs-Holds admits w _ (scaled run env cluster service input principal) h =
    (scale-Keeps env admits cluster service input principal).at _ (Runs-Holds admits w _ run h)
Runs-Holds admits w _ (restarted run env cluster service input principal) h =
    (restart-Keeps env admits cluster service input principal).at _ (Runs-Holds admits w _ run h)
Runs-Holds admits w _ (recovered run env) h =
    (recover_services-Keeps env admits.stable).at _ (Runs-Holds admits w _ run h)
Runs-Holds admits w _ (drained run env cluster node input principal) h =
    (mutate-Keeps env admits cluster node input principal _).at _ (Runs-Holds admits w _ run h)
Runs-Holds admits w _ (activated run env cluster node input principal) h =
    (mutate-Keeps env admits cluster node input principal _).at _ (Runs-Holds admits w _ run h)
Runs-Holds admits w _ (labelled run env cluster node input patch principal) h =
    (mutate-Keeps env admits cluster node input principal _).at _ (Runs-Holds admits w _ run h)
Runs-Holds admits w _ (nodes_recovered run env) h =
    (recover_nodes-Keeps env admits.stable).at _ (Runs-Holds admits w _ run h)
