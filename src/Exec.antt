-- ===== src/Exec.antt =====
-- How a method of a service runs: the state of its database session, the clock, and what it has
-- asked of the agent. The agent, the database server and the clock are the environment: their
-- answers are functions of the number of the call, so they may change between any two calls.
pub mod Keeps
pub mod Ends
pub mod Meets
pub mod Returns
pub mod Atomic
pub mod Uuid
pub mod Execute
pub mod Triple
use docklane.Prelude.{
  ℕ, suc, ◌+◌, String, Text, Bool, true, false, List, [], ◌∷◌, ◌++◌, Option, none, some,
}
use docklane.Prelude.Json.{Json}
use docklane.Agent.{
  ServiceDetailResponse, ServiceMutationPlan, ServiceMutationResponse, ServicePlacementResponse,
  CapacityCheckRequest, CapacityCheckResponse, ServiceImageMutationPlan, NodeDetailResponse,
  NodeMutationPlan, NodeMutationResponse,
}
use docklane.Agent.Errors.{AgentError, agent_message, Answer, yields, refuses}
use docklane.Net.{Url, Address, Response}
use docklane.Store.{NodeOperationType, Db}

-- Why a convergence guard stopped a health check (deployment.service.ts).
pub data Decision : Type 0 where
  pending success rollback_paused failed external_conflict : Decision

pub data GuardDecision : Type 0 where
  decided : Decision → GuardDecision
  unavailable : GuardDecision

-- What the code throws. `stuck` is no exception of the program: a loop raises it where its fuel
-- runs out.
pub data Failure : Type 0 where
  agent : AgentError → Failure
  conflict bad_gateway not_found service_unavailable error : String → Failure
  insufficient_capacity : CapacityCheckResponse → Failure
  guarded : GuardDecision → String → Failure
  duplicate_dispatch : Failure
  stuck : Failure

-- apps/api/src/deployments/deployment.service.ts: errorMessage
unfoldable pub error_message : Failure → String
unfolding agent_message
error_message (agent e) = agent_message e
error_message (conflict m) = m
error_message (bad_gateway m) = m
error_message (not_found m) = m
error_message (service_unavailable m) = m
error_message (error m) = m
error_message (insufficient_capacity r) =
    "Swarm capacity pre-check found insufficient eligible capacity"
error_message (guarded d m) = m
error_message duplicate_dispatch = "Existing mutation dispatch evidence requires reconciliation"
error_message stuck = ""

pub data Result {ℓ} (A : Type ℓ) : Type ℓ where
  ok : A → Result A
  err : Failure → Result A

-- A mutating request that was handed to the agent client, with the operation in whose scope it was.
pub record Dispatch : Type 0 where
  pub operation_id : String
  pub service_id : String
  pub expected_version : ℕ
  pub expected_spec_hash : String
  pub target_spec_hash : String
  pub replicas : Option ℕ

-- A request that changes a node: `drainNode`, `activateNode` or `updateNodeLabels` by its type.
pub record NodeDispatch : Type 0 where
  pub operation_id : String
  pub node_id : String
  pub type : NodeOperationType
  pub expected_version : ℕ
  pub expected_spec_hash : String
  pub target_spec_hash : String
  pub expected_service_ids : Option (List String)
  pub target_labels : Option (List (String × String))

-- DRAIN and LABELS name the services that they affect, ACTIVATE names none.
abbrev pub named_services : NodeOperationType → List String → Option (List String)
named_services NodeOperationType.drain services = some services
named_services NodeOperationType.activate services = none
named_services NodeOperationType.labels services = some services

-- The requests that were made, of services and of nodes.
pub record Requests : Type 0 where
  pub services : List Dispatch
  pub nodes : List NodeDispatch

-- The tables as the session sees them; as they were before the transaction that is open; the time;
-- the number of the next call; the requests that change the cluster; the named locks of the session.
pub record World : Type 0 where
  pub db : Db
  pub saved : Option Db
  pub now : ℕ
  pub calls : ℕ
  pub dispatched : List Dispatch
  pub node_dispatched : List NodeDispatch
  pub held : List String

abbrev pub requests : World → Requests
requests w = record { services = w.dispatched; nodes = w.node_dispatched }

-- How a statement fails: the server has carried out nothing, or it has carried the statement out and
-- its answer was lost. The code is told the same of both, a message.
pub data Fault : Type 0 where
  undone lost : String → Fault

abbrev pub fault_message : Fault → String
fault_message (undone m) = m
fault_message (lost m) = m

-- What the code runs in. `statement_fails` is the failure of a statement, if it fails, `get_lock` says
-- whether GET_LOCK answers 1 within its two seconds, and `latency` the time that a call takes.
-- `parse_json`, `sha256_hex`, `uuid`, `parse_url` and `resolve_url`, `lookup` and `fetch` are
-- JSON.parse, the digest and randomUUID of node:crypto, the URL parser, the resolver and the HTTP
-- client, which is given its time limit. `cluster_id` and `private_hosts` are the settings
-- DOCKLANE_CLUSTER_ID and, split at its commas, DOCKLANE_HEALTH_PRIVATE_HOSTS.
pub record Env : Type 0 where
  pub inspect_service : ℕ → String → Answer ServiceDetailResponse
  pub check_service_placement : ℕ → String → Answer ServicePlacementResponse
  pub check_service_capacity : ℕ → String → CapacityCheckRequest → Answer CapacityCheckResponse
  pub plan_scale_service : ℕ → String → ℕ → ℕ → Answer ServiceMutationPlan
  pub plan_restart_service : ℕ → String → ℕ → Answer ServiceMutationPlan
  pub plan_update_service_image : ℕ → String → ℕ → Text → Answer ServiceImageMutationPlan
  pub plan_rollback_service : ℕ → String → ℕ → Answer ServiceImageMutationPlan
  pub mutate : ℕ → Dispatch → Answer ServiceMutationResponse
  pub inspect_node : ℕ → String → Answer NodeDetailResponse
  pub plan_drain_node : ℕ → String → ℕ → Answer NodeMutationPlan
  pub plan_activate_node : ℕ → String → ℕ → Answer NodeMutationPlan
  pub plan_node_labels :
      ℕ → String → ℕ → List (String × String) → List String → Answer NodeMutationPlan
  pub mutate_node : ℕ → NodeDispatch → Answer NodeMutationResponse
  pub parse_json : String → Option Json
  pub uuid : ℕ → String
  pub parse_url : String → Option Url
  pub resolve_url : String → Url → Option Url
  pub lookup : ℕ → Text → Answer (List Address)
  pub fetch : ℕ → Url → ℕ → Answer Response
  pub private_hosts : List Text
  pub statement_fails : ℕ → Option Fault
  pub get_lock : ℕ → String → Bool
  pub sha256_hex : String → String
  pub latency : ℕ → ℕ
  pub cluster_id : String

abbrev pub M {ℓ} : Type ℓ → Type ℓ
M A = World → Result A × World

module _ {ℓ} {A : Type ℓ} where
  unfoldable pub pure : A → M A
  pure a w = (ok a, w)

  unfoldable pub raise : Failure → M A
  raise e w = (err e, w)

  abbrev pub handle : Result A → (Failure → M A) → M A
  handle (ok a) h w = (ok a, w)
  handle (err e) h w = h e w

  -- `try { m } catch (e) { h e }`: what `m` has written stays written.
  unfoldable pub try : M A → (Failure → M A) → M A
  try m h w = let (r, w') = m w in handle r h w'

  -- A `try` whose two outcomes the code goes on to tell apart.
  unfoldable pub attempt : M A → M (Result A)
  attempt m w = let (r, w') = m w in (ok r, w')

  unfoldable pub lift : Result A → M A
  lift r w = (r, w)

abbrev pub continue {ℓ κ} : {A : Type ℓ} {B : Type κ} → Result A → (A → M B) → M B
continue (ok a) f w = f a w
continue (err e) f w = (err e, w)

infixl 5 ◌>>=◌ ◌>>◌
unfoldable pub ◌>>=◌ {ℓ κ} : {A : Type ℓ} {B : Type κ} → M A → (A → M B) → M B
◌>>=◌ m f w = let (r, w') = m w in continue r f w'

abbrev pub ◌>>◌ {ℓ κ} : {A : Type ℓ} {B : Type κ} → M A → M B → M B
m >> k = m >>= λ _. k

abbrev pub fork {ℓ κ} : {A : Type ℓ} {B : Type κ} → Result A → (A → M B) → (Failure → M B) → M B
fork (ok a) f h w = f a w
fork (err e) f h w = h e w

-- A `try` and what follows it, where its `catch` goes another way.
unfoldable pub on_result {ℓ κ} : {A : Type ℓ} {B : Type κ} → M A → (A → M B) → (Failure → M B) → M B
on_result m f h w = let (r, w') = m w in fork r f h w'

-- `if (test) throw e;`
unfoldable pub throw_if : Bool → Failure → M (Unit {0})
throw_if true e w = (err e, w)
throw_if false e w = (ok tt, w)

-- Date.now() and sleep(ms)
unfoldable pub date_now : M ℕ
date_now w = (ok w.now, w)

unfoldable pub sleep : ℕ → M (Unit {0})
sleep ms w = (ok tt, record w { now = w.now + ms })

abbrev pub answered {ℓ} : {A : Type ℓ} → Answer A → Result A
answered (yields a) = ok a
answered (refuses e) = err (agent e)

module _ (env : Env) where
  abbrev pub tick : World → World
  tick w = record w { calls = suc w.calls; now = w.now + env.latency w.calls }

  -- A question to the environment, which takes its time.
  unfoldable pub ask {ℓ} : {A : Type ℓ} → (ℕ → Answer A) → M A
  ask q w = (answered (q w.calls), tick w)

  -- A request that changes the cluster, made in the scope of its operation.
  unfoldable pub dispatch : Dispatch → M ServiceMutationResponse
  dispatch d w =
      (answered (env.mutate w.calls d), record (tick w) { dispatched = w.dispatched ++ d ∷ [] })

  unfoldable pub dispatch_node : NodeDispatch → M NodeMutationResponse
  dispatch_node d w = (
    answered (env.mutate_node w.calls d),
    record (tick w) { node_dispatched = w.node_dispatched ++ d ∷ [] },
  )

  abbrev pub run_statement : Option Fault → Option Db → World → Result (Unit {0}) × World
  run_statement (some (undone m)) _ w = (err (error m), w)
  run_statement (some (lost m)) none w = (err (error m), w)
  run_statement (some (lost m)) (some db) w = (err (error m), record w { db = db })
  run_statement none none w = (err (error "ER_DUP_ENTRY"), w)
  run_statement none (some db) w = (ok tt, record w { db = db })

  -- An insertion: it may be refused by a unique key, fail for a reason of the server, or be done and
  -- its answer lost.
  unfoldable pub insertion : (ℕ → Db → Option Db) → M (Unit {0})
  insertion f w = run_statement (env.statement_fails w.calls) (f w.now w.db) (tick w)

  unfoldable pub statement : (ℕ → Db → Db) → M (Unit {0})
  statement f = insertion (λ now db. some (f now db))

  abbrev pub answer_query {ℓ} : {A : Type ℓ} → Option Fault → A → Result A
  answer_query (some fault) a = err (error (fault_message fault))
  answer_query none a = ok a

  unfoldable pub query {ℓ} : {A : Type ℓ} → (Db → A) → M A
  query f w = (answer_query (env.statement_fails w.calls) (f w.db), tick w)

  abbrev pub settle : Option Fault → World → World → Result (Unit {0}) × World
  settle none done faulted = (ok tt, done)
  settle (some (undone m)) done faulted = (err (error m), faulted)
  settle (some (lost m)) done faulted = (err (error m), done)

  -- A transaction that is open keeps the tables as they were before it. To begin a transaction
  -- commits an open one, as the server does. A commit that fails may have committed: its answer is
  -- what was lost.
  unfoldable pub begin_transaction : M (Unit {0})
  begin_transaction w =
      settle (env.statement_fails w.calls) (record (tick w) { saved = some w.db }) (tick w)

  unfoldable pub commit : M (Unit {0})
  commit w = settle (env.statement_fails w.calls) (record (tick w) { saved = none }) (tick w)

  abbrev pub restore : Option Db → World → World
  restore none w = w
  restore (some db) w = record w { db = db; saved = none }

  unfoldable pub rollback : M (Unit {0})
  rollback w = settle (env.statement_fails w.calls) (restore w.saved (tick w)) (tick w)

  -- The methods that write: `beginTransaction`, then the statements and `commit` under a `try` whose
  -- handler rolls back and throws again.
  unfoldable pub transaction {ℓ} : {A : Type ℓ} → M A → M A
  transaction body = do
    begin_transaction
    try (do a ← body; commit; pure a) (λ e. do rollback; raise e)
