-- ===== src/Lib.antt =====
-- Docklane is a control plane for Docker Swarm clusters. Its API (apps/api) keeps operations,
-- deployments and releases in a MySQL database and asks an agent, which runs beside a manager of
-- the cluster, to change services and nodes. This library models the part of the API that changes
-- services and nodes: how an operation is recorded before the agent is asked, how the change is
-- observed, how a process that was interrupted recovers, and how the maintenance of a cluster stops
-- and resumes it.
--
-- The parts, and the files that model them:
-- - Agent, Agent/Errors, Agent/Payload: apps/api/src/agent/{read-model,capacity-model,
--   placement-model,agent-client}.ts, what the agent answers. A slot keeps its sign; AgentError has
--   AgentRequestError, its subclass MaintenancePreDispatchRejection, and every other error.
-- - Store and its children: the rows and the repositories of apps/api/src/operations and
--   apps/api/src/deployments, each SQL statement as a function of the tables. Db holds the tables.
-- - Net: what the URL parser, the resolver and the HTTP client of the runtime hand over.
-- - Exec: how a method runs. M A takes a World, the tables of the session, those before its open
--   transaction, the clock, the requests made of the agent and the locks held, to a result and a
--   World. Env is what answers from outside, by the number of the call: the agent, the failures of
--   the server (a Fault: the statement, a COMMIT too, was not carried out, or it was and its answer
--   was lost), GET_LOCK, the resolver, JSON.parse, the digest and the UUIDs. Exec/Keeps, Meets,
--   Triple, Returns, Ends and Atomic are the rules by which proofs follow an action.
-- - Dispatch: apps/api/src/agent/mutation-dispatch-context.ts, withMutationOperation.
-- - Lock: apps/api/src/operations/operation-lock.ts, the named locks of withResourceLocks.
-- - Capacity: apps/api/src/capacity/capacity.service.ts.
-- - Mutation: apps/api/src/operations/mutation.service.ts and mutation-verification.ts. Service has
--   scale, restart and the recovery at start-up; Persist the methods that write, with Atomicity and
--   Recorded for what of them is committed; Verify the loop of verify, verifyAndCompleteLocked and reconcileLocked; Classify classifyMutationSnapshot.
-- - Node: apps/api/src/operations/node-mutation.service.ts and node-mutation-verification.ts. Service
--   has drain, activate, labels and the recovery at start-up, Persist the methods that write, Verify
--   verifyAndCompleteLocked and reconcileLocked, Classify classifyNodeMutation, Labels the comparisons
--   of labels and of lists of services.
-- - Traces, Safety: what the tables keep of each request, over any sequence of requests and recoveries
--   of services and nodes.
-- - Deployment: apps/api/src/deployments/deployment.service.ts. Classify has the classifiers of a
--   snapshot; Persist the methods that write; Verify is verifyAndComplete and VerifyRollback is
--   verifyRollbackAndComplete; Image has the references of images.
-- - Health: apps/api/src/deployments/health-verifier.ts and health-endpoint.policy.ts. The health
--   check calls the guard that Deployment.Verify hands it, which asks the agent again.
-- - Maintenance: apps/api/src/clusters. Statements has the SQL of cluster-maintenance.repository.ts and
--   maintenance-control-lease.ts, Repository and Lease their methods, Input the checks of what an
--   operator enters; Journal is maintenance-dispatch-journal.ts, Admission registered-operation-lock.ts
--   with the binding of cluster-binding.policy.ts. Cycle is the abstract cycle of a cluster's state,
--   Runs every sequence of the operations, Keeps and Writes what they keep and write; Followed,
--   Fencing, Phases, Evidence, Live, Sent (with Unsent) and Closed have the theorems. The statements run on the session of the lock. The
--   engine is InnoDB: rows that a transaction has read FOR UPDATE stay until its end, the count of
--   affected rows is that of the matched ones, and generations stay below 2^64.
-- - Examples: runs on a sample cluster.
--
-- Every method of Mutation and Node runs under the locks of its service or node, so a run here is a
-- sequence of whole requests; between any two calls of one request the agent may answer anything. The
-- methods of Maintenance are whole steps too: other processes come between two of them, not between
-- two statements of one. Two reads of the clock with no
-- wait between them give one time. The loops of verification run on fuel: a round waits 500
-- milliseconds, so the sixty rounds that are given last for the thirty seconds of the deadline. The
-- loop of the health check has a round for each millisecond of its time limit, and waits at least one
-- in each, as the request's schema demands. Numbers are natural, and versions, counters and
-- times do not overflow: the code reads them as JavaScript numbers far below 2^53. Text that the code
-- walks is a list of code units, and is lowered as ASCII is. A GET_LOCK that fails is
-- taken to have locked nothing, since a lock ends with the connection over which its answer is lost.
--
-- Not modelled: the transport to the agent and the parsing of its answers, the controllers, the
-- migrations, the logs, authentication, releases and the registry; of the maintenance of clusters, the
-- barrier of the managers and the recovery of evidence; of deployments, the requests and the recovery
-- that lead to the two verification loops.
pub mod Prelude
pub mod Agent
pub mod Maintenance
pub mod Store
pub mod Traces
pub mod Net
pub mod Exec
pub mod Mutation
pub mod Node
pub mod Safety
pub mod Lock
pub mod Capacity
pub mod Dispatch
pub mod Deployment
pub mod Health
pub mod Examples
