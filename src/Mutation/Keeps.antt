-- ===== src/Mutation/Keeps.antt =====
-- apps/api/src/operations/mutation.service.ts: the invariants of the tables that every write of an
-- operation's state keeps, whichever method makes it.
pub mod Reconciling
pub mod Handlers
pub mod Executing
use docklane.Prelude.{ℕ, ◌≡◌, refl, String, List, Option, none, some}
use docklane.Prelude.Json.{Json}
use docklane.Agent.{ServiceMutationPlan, ServiceDetailResponse, ServiceMutationResponse}
use docklane.Agent.Errors.{AgentError}
use docklane.Store.{OperationStatus, OperationRecord, AuditEvent, Db}
use docklane.Store.Operations
use docklane.Store.Operations.{update_rows, is_open}
use docklane.Exec.{Env, Dispatch, M, statement, query, throw_if, ◌>>=◌, Requests}
use docklane.Traces.{SameIntent, Stable, Kept}
use docklane.Exec.Keeps.{Keeps, Keeps-bind, Keeps-pure, Keeps-raise, Keeps-throw_if}
use docklane.Exec.Keeps.Tables.{Holds, Holds-statement, Holds-query, Holds-transaction}
use docklane.Mutation.Persist.{
  mark_verifying, mark_agent_rejected, mark_needs_attention, audit, require_operation,
  or_disappeared,
}

abbrev with_state :
    OperationRecord → OperationStatus → Option ℕ → Option String → Option String → OperationRecord
with_state r status version code message = record r {
  status = status;
  result_version = version;
  error_code = code;
  error_message = message;
}

with_state-SameIntent :
    (r : OperationRecord) (status : OperationStatus) (version : Option ℕ)
    (code message : Option String)
    → SameIntent (with_state r status version code message) r
with_state-SameIntent r status version code message = record {
  id = refl;
  service_id = refl;
  expected_version = refl;
  before_spec_hash = refl;
  target_spec_hash = refl;
  target_replicas = refl;
}

module _ {Q : Requests → Db → Type 0} (stable : Stable Q) where
  pub mark_running-Kept : (id : String) → Kept Q (Operations.mark_running id)
  unfolding Operations.mark_running
  mark_running-Kept id = stable.updates id _ (λ r. with_state-SameIntent r _ _ _ _)

  pub mark_verifying-Kept : (id : String) (v : ℕ) → Kept Q (Operations.mark_verifying id v)
  unfolding Operations.mark_verifying
  mark_verifying-Kept id v = stable.updates id _ (λ r. with_state-SameIntent r _ _ _ _)

  pub mark_verification_pending-Kept :
      (id code message : String) → Kept Q (Operations.mark_verification_pending id code message)
  unfolding Operations.mark_verification_pending
  mark_verification_pending-Kept id code message =
      stable.updates id _ (λ r. with_state-SameIntent r _ _ _ _)

  pub mark_success-Kept : (id : String) (v : ℕ) → Kept Q (Operations.mark_success id v)
  unfolding Operations.mark_success
  mark_success-Kept id v = stable.updates id _ (λ r. with_state-SameIntent r _ _ _ _)

  pub mark_needs_attention-Kept :
      (id code message : String) → Kept Q (Operations.mark_needs_attention id code message)
  unfolding Operations.mark_needs_attention
  mark_needs_attention-Kept id code message =
      stable.updates id _ (λ r. with_state-SameIntent r _ _ _ _)

  pub mark_failed-Kept :
      (id code message : String) → Kept Q (Operations.mark_failed id code message)
  unfolding Operations.mark_failed
  mark_failed-Kept id code message = stable.updates id _ (λ r. with_state-SameIntent r _ _ _ _)

module _ (env : Env) {Q : Requests → Db → Type 0} (stable : Stable Q) where
  pub Holds-write : (g : Db → Db) → Kept Q g → Keeps (Holds Q) (statement env (λ _. g))
  Holds-write g kept = Holds-statement env (λ _. g) (λ now l db q. kept l db q)

  pub Holds-event :
      (event : AuditEvent) → Keeps (Holds Q) (statement env (λ _. Operations.audit event))
  Holds-event event = Holds-write _ (stable.audits event)

  -- An update of an operation with its event, in one transaction.
  pub Holds-update_and_event :
      (g : Db → Db) (event : AuditEvent)
      → Kept Q g
      → Keeps
          (Holds Q)
          (statement env (λ _. g) >>= λ _. statement env (λ _. Operations.audit event))
  Holds-update_and_event g event kept = Keeps-bind _ _ (Holds-write g kept) (λ _. Holds-event event)

  pub mark_verifying-Keeps : (id : String) (v : ℕ) → Keeps (Holds Q) (mark_verifying env id v)
  unfolding mark_verifying
  mark_verifying-Keeps id v =
      Holds-transaction env _ (Holds-write _ (mark_verifying-Kept stable id v))

  pub mark_agent_rejected-Keeps :
      (id actor cluster service : String) (e : AgentError)
      → Keeps (Holds Q) (mark_agent_rejected env id actor cluster service e)
  unfolding mark_agent_rejected
  mark_agent_rejected-Keeps id actor cluster service e =
      Holds-transaction env _ (Holds-update_and_event _ _ (mark_failed-Kept stable id _ _))

  pub mark_needs_attention-Keeps :
      (operation : OperationRecord) (code message : String) (current : Option Json)
      → Keeps (Holds Q) (mark_needs_attention env operation code message current)
  unfolding mark_needs_attention
  mark_needs_attention-Keeps operation code message current =
      Holds-transaction env _
        (Holds-update_and_event _ _ (mark_needs_attention-Kept stable operation.id code message))

  pub audit-Keeps :
      (operation : OperationRecord) (action : String) (after_json : Option Json)
      → Keeps (Holds Q) (audit env operation action after_json)
  unfolding audit
  audit-Keeps operation action after_json = Holds-transaction env _ (Holds-event _)

module _ (env : Env) {Q : Requests → Db → Type 0} where
  or_disappeared-Keeps :
      (found : Option OperationRecord) → Keeps (Holds Q) (or_disappeared env found)
  unfolding or_disappeared
  or_disappeared-Keeps none = Keeps-raise _
  or_disappeared-Keeps (some operation) = Keeps-pure operation

  pub require_operation-Keeps : (id : String) → Keeps (Holds Q) (require_operation env id)
  unfolding require_operation
  require_operation-Keeps id = Keeps-bind _ _ (Holds-query env _) or_disappeared-Keeps
