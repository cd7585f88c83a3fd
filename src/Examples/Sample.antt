-- ===== src/Examples/Sample.antt =====
-- A cluster "c1" with one service "web", which is scaled from two replicas to three. The agent shows
-- the service as it was before call 13, which is the request, and as it was asked for afterwards.
use docklane.Prelude.{
  ℕ, String, Text, codes, true, false, List, [], ◌∷◌, Option, none, some, ltb, if◌then◌else◌,
}
use docklane.Agent.{
  from, ServiceSummary, TaskSummary, ServiceDetailResponse, ServiceMutationPlan,
  ServiceMutationResponse, PlacementStatus, CapacityStatus, NodeSummary, NodeDetailResponse,
  NodeMutationPlan, NodeMutationResponse,
}
use docklane.Agent.Errors.{yields, refuses, other}
use docklane.Prelude.Json.{str}
use docklane.Deployment.Verify.{Verification}
use docklane.Store.{
  OperationType, OperationStatus, OperationRecord, Db, HealthCheckConfig, DeploymentRecord,
  DeploymentKind, DeploymentStatus, Availability, NodeOperationType, NodeOperationRecord,
}
use docklane.Net.{Url, v4}
use docklane.Exec.{Env, World, Dispatch}
use docklane.Node.Service.{NodeMutationRequest}
use docklane.Mutation.Service.{Principal, ScaleServiceRequest}

abbrev pub digest : Text
digest = codes "sha256:aaaaaaaaaaaaaaaaaaaaaaaaaaaaaaaaaaaaaaaaaaaaaaaaaaaaaaaaaaaaaaaa"

abbrev pub image : Text
image = codes "registry/web@sha256:aaaaaaaaaaaaaaaaaaaaaaaaaaaaaaaaaaaaaaaaaaaaaaaaaaaaaaaaaaaaaaaa"

abbrev pub task : ℕ → String → TaskSummary
task slot spec_hash = record {
  id = "t";
  service_id = "web";
  spec_hash = spec_hash;
  runtime_spec_hash = "runtime";
  slot = from slot;
  node_id = some "n1";
  desired_state = "running";
  state = "running";
  force_update = 0;
  message = none;
  error = none;
  container_id = none;
  image = some image;
  timestamp = "";
}

abbrev pub service : ℕ → String → ℕ → Option String → ServiceSummary
service version spec_hash replicas update_state = record {
  id = "web";
  name = "web";
  version = version;
  spec_hash = spec_hash;
  force_update = 0;
  task_spec_hash = some "task";
  runtime_spec_hash = some "runtime";
  image = some image;
  mode = "replicated";
  desired_replicas = replicas;
  running_replicas = replicas;
  update_state = update_state;
  update_message = none;
  created_at = "";
  updated_at = "";
}

abbrev pub before : ServiceDetailResponse
before = record { service = service 7 "old" 2 none; tasks = task 1 "old" ∷ task 2 "old" ∷ [] }

abbrev pub after : ServiceDetailResponse
after = record {
  service = service 8 "new" 3 (some "completed");
  tasks = task 1 "new" ∷ task 2 "new" ∷ task 3 "new" ∷ [];
}

abbrev pub plan : ServiceMutationPlan
plan = record {
  service_id = "web";
  version = 7;
  before_spec_hash = "old";
  target_spec_hash = "new";
  target_force_update = 0;
  target_replicas = some 3;
  target_image = some image;
  target_task_spec_hash = some "task";
  target_runtime_spec_hash = some "runtime";
}

abbrev pub accepted : ServiceMutationResponse
accepted = record {
  service_id = "web";
  version = 8;
  target_spec_hash = "new";
  target_force_update = 0;
}

abbrev pub url : Url
url = record {
  protocol = "https:";
  username = "";
  password = "";
  host = codes "web.example";
  hostname = codes "web.example";
}

-- A node with two tasks, and the node once it is drained.
abbrev pub node : ℕ → String → String → NodeSummary
node version spec_hash availability = record {
  id = "n1";
  version = version;
  spec_hash = spec_hash;
  hostname = "one";
  address = "10.0.0.2";
  role = "worker";
  availability = availability;
  state = "ready";
  message = none;
  manager = false;
  leader = false;
  reachability = none;
  engine_version = none;
  nano_cpus = from 4;
  memory_bytes = from 8;
  labels = ("zone", "a") ∷ [];
}

abbrev pub node_before : NodeDetailResponse
node_before = record {
  node = node 5 "old" "active";
  tasks = task 1 "old" ∷ [];
  service_ids = "web" ∷ [];
}

abbrev pub node_after : NodeDetailResponse
node_after = record { node = node 6 "new" "drain"; tasks = []; service_ids = [] }

abbrev pub drain_plan : NodeMutationPlan
drain_plan = record {
  node_id = "n1";
  version = 5;
  before_spec_hash = "old";
  target_spec_hash = "new";
  target_availability = Availability.drain;
  affected_service_ids = "web" ∷ [];
  target_labels = none;
}

abbrev pub node_accepted : NodeMutationResponse
node_accepted = record {
  node_id = "n1";
  version = 6;
  target_spec_hash = "new";
  target_availability = Availability.drain;
}

abbrev pub env : Env
env = record {
  inspect_node = λ n id. yields (if ltb n 13 then node_before else node_after);
  plan_drain_node = λ n id version. yields drain_plan;
  plan_activate_node = λ n id version. refuses (other "not asked for");
  plan_node_labels = λ n id version set remove. refuses (other "not asked for");
  mutate_node = λ n d. yields node_accepted;
  inspect_service = λ n id. yields (if ltb n 13 then before else after);
  check_service_placement =
      λ n id. yields (record { service_id = "web"; status = PlacementStatus.converged });
  check_service_capacity = λ n id input.
      yields (record { service_id = "web"; status = CapacityStatus.sufficient; reasons = [] });
  plan_scale_service = λ n id version replicas. yields plan;
  plan_restart_service = λ n id version. yields plan;
  plan_update_service_image = λ n id version image. refuses (other "not asked");
  plan_rollback_service = λ n id version. refuses (other "not asked");
  mutate = λ n d. yields accepted;
  parse_json = λ s. none;
  uuid = λ n. "uuid";
  parse_url = λ s. some url;
  resolve_url = λ s u. some u;
  lookup = λ n host. yields (v4 93 184 216 34 ∷ []);
  fetch = λ n u limit. yields (record { status = 200; location = none });
  private_hosts = [];
  statement_fails = λ n. none;
  get_lock = λ n name. true;
  sha256_hex = λ key. key;
  latency = λ n. 1;
  cluster_id = "c1";
}

abbrev pub empty : Db
empty = record {
  operations = [];
  node_operations = [];
  deployments = [];
  rollback_attempts = [];
  audit_events = [];
  deployment_targets = [];
  releases = [];
  cluster_registrations = [];
  maintenance_states = [];
  control_leases = [];
  active_admissions = [];
  maintenance_dispatches = [];
  agent_barriers = [];
  evidence_resolutions = [];
}

-- An operation of another service that has succeeded.
abbrev pub finished : OperationRecord
finished = record {
  id = "op0";
  cluster_id = "c1";
  service_id = "db";
  type = OperationType.restart;
  status = OperationStatus.success;
  actor_id = "ann";
  expected_version = 3;
  before_spec_hash = "a";
  target_spec_hash = "b";
  target_force_update = 1;
  target_replicas = none;
  target_image = none;
  target_task_spec_hash = none;
  target_runtime_spec_hash = none;
  result_version = some 4;
  error_code = none;
  error_message = none;
}

-- The scale as it stands once its request was accepted.
abbrev pub verifying : OperationRecord
verifying = record {
  id = "op1";
  cluster_id = "c1";
  service_id = "web";
  type = OperationType.scale;
  status = OperationStatus.verifying;
  actor_id = "ann";
  expected_version = 7;
  before_spec_hash = "old";
  target_spec_hash = "new";
  target_force_update = 0;
  target_replicas = some 3;
  target_image = none;
  target_task_spec_hash = none;
  target_runtime_spec_hash = none;
  result_version = some 8;
  error_code = none;
  error_message = none;
}

abbrev pub world : List OperationRecord → World
world operations = record {
  db = record empty { operations = operations };
  saved = none;
  now = 1000;
  calls = 0;
  dispatched = [];
  node_dispatched = [];
  held = [];
}

abbrev pub ann : Principal
ann = record { actor_id = "ann" }

abbrev pub scale_request : ScaleServiceRequest
scale_request = record { operation_id = "op1"; expected_version = 7; replicas = 3 }

abbrev pub repeated : ScaleServiceRequest
repeated = record { operation_id = "op0"; expected_version = 3; replicas = 3 }

abbrev pub sent : Dispatch
sent = record {
  operation_id = "op1";
  service_id = "web";
  expected_version = 7;
  expected_spec_hash = "old";
  target_spec_hash = "new";
  replicas = some 3;
}

abbrev pub health : HealthCheckConfig
health = record {
  url = "https://web.example/health";
  interval_ms = 100;
  timeout_ms = 1000;
  retries = 2;
  stability_window_ms = 50;
  expected_status = 200;
}

abbrev pub deployment : DeploymentRecord
deployment = record {
  id = "d1";
  kind = DeploymentKind.deploy;
  source_deployment_id = none;
  release_id = "r2";
  previous_release_id = some "r1";
  deployment_target_id = "t1";
  operation_id = "op1";
  rollback_operation_id = none;
  status = DeploymentStatus.verifying;
  reason = none;
  no_op = false;
  before_spec = str "";
  target_spec = str "";
  health = health;
  expected_service_version = 7;
  finished_at = none;
  created_by = "ann";
  created_at = 1;
}

-- The deployment and its operation, once the agent shows the service as it was asked for.
abbrev pub deploying : World
deploying = record (world (verifying ∷ [])) {
  db = record empty { operations = verifying ∷ []; deployments = deployment ∷ [] };
  calls = 20;
}

abbrev pub verification : Verification
verification = record {
  deployment_id = "d1";
  operation_id = "op1";
  plan = plan;
  digest = digest;
  no_op = false;
  health = health;
}

abbrev pub drain_request : NodeMutationRequest
drain_request = record { operation_id = "op1"; expected_version = 5 }

-- A node operation that has ended, and one that sets labels and is being verified.
abbrev pub drained : NodeOperationRecord
drained = record {
  id = "op8";
  cluster_id = "c1";
  node_id = "n2";
  type = NodeOperationType.drain;
  status = OperationStatus.success;
  actor_id = "ann";
  expected_version = 5;
  before_spec_hash = "old";
  target_spec_hash = "new";
  target_availability = Availability.drain;
  target_labels = none;
  label_patch = none;
  affected_service_ids = "web" ∷ [];
  result_version = some 6;
  error_code = none;
  error_message = none;
}

abbrev pub labelling : NodeOperationRecord
labelling = record drained {
  id = "op9";
  node_id = "n1";
  type = NodeOperationType.labels;
  status = OperationStatus.verifying;
  target_labels = some (("zone", "a") ∷ []);
}
