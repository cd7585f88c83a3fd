-- ===== src/Agent/Errors.antt =====
-- apps/api/src/agent/agent-client.ts: the errors of a request to the agent, and which of them the code
-- takes as a rejection of the mutation. `JSON.parse` is a parameter.
pub mod Deterministic
use Prim.Native.String.{◌++◌ as concat}
use docklane.Prelude.{
  ℕ, String, Bool, true, false, ◌&&◌, ◌||◌, Option, none, some, ◌==◌, ℕ-eq, String-eq, Option-eq,
  decimal, if◌then◌else◌,
}
use docklane.Prelude.Json.{Json, str, obj, get}

pub data MaintenanceCode : Type 0 where
  maintenance_closed maintenance_unavailable : MaintenanceCode

-- AgentRequestError, its subclass MaintenancePreDispatchRejection, and any other error.
pub data AgentError : Type 0 where
  request : (status_code : ℕ) → (response_body : String) → AgentError
  pre_dispatch : MaintenanceCode → AgentError
  other : (message : String) → AgentError

pub data Answer {ℓ} (A : Type ℓ) : Type ℓ where
  yields : A → Answer A
  refuses : AgentError → Answer A

abbrev pub maintenance_status : MaintenanceCode → ℕ
maintenance_status maintenance_closed = 409
maintenance_status maintenance_unavailable = 503

-- The status code of an AgentRequestError.
abbrev pub status_code : AgentError → Option ℕ
status_code (request code body) = some code
status_code (pre_dispatch code) = some (maintenance_status code)
status_code (other m) = none

abbrev pub response_body : AgentError → String
response_body (request code body) = body
response_body (pre_dispatch maintenance_closed) = "{\"code\":\"MAINTENANCE_CLOSED\"}"
response_body (pre_dispatch maintenance_unavailable) = "{\"code\":\"MAINTENANCE_UNAVAILABLE\"}"
response_body (other m) = ""

unfoldable pub agent_message : AgentError → String
unfolding decimal
agent_message (request code body) = concat "Agent request failed with " (decimal code)
agent_message (pre_dispatch code) =
    concat "Agent request failed with " (decimal (maintenance_status code))
agent_message (other m) = m

-- The property `code` of a parsed body, where the body is an object.
abbrev pub body_code : Option Json → Option String
unfolding get
body_code (some (obj fields)) = elim (get "code" fields) [ some (str code) ↦ some code | _ ↦ none ]
body_code _ = none

abbrev pub is_guard_pair : ℕ → Option String → Bool
is_guard_pair status code =
    status == 412 && code == some "CLUSTER_PRECONDITION_FAILED"
    || status == 428 && code == some "CLUSTER_PRECONDITION_REQUIRED"
    || status == 503 && code == some "CLUSTER_IDENTITY_UNAVAILABLE"

unfoldable pub is_deterministic_agent_rejection : (String → Option Json) → AgentError → Bool
unfolding get
is_deterministic_agent_rejection parse_json (pre_dispatch code) = true
is_deterministic_agent_rejection parse_json (other m) = false
is_deterministic_agent_rejection parse_json (request status body) =
    if status == 400 || status == 409
    then true
    else is_guard_pair status (body_code (parse_json body))
