-- ===== src/Node/Evidence.antt =====
-- apps/api/src/operations/node-mutation.service.ts: what verifyAndCompleteLocked has behind a node
-- operation that it makes a SUCCESS.
use docklane.Prelude.{
  ℕ, ◌≡◌, refl, ap, sym, ◌∙◌, subst, some_inj, String, Bool, true, false, List, [], ◌∷◌, All,
  Option, none, some, find, ◌==◌, String-eq, if◌then◌else◌,
}
use mathlib.Core.Option
use docklane.Agent.{NodeDetailResponse, ServicePlacementResponse, PlacementStatus}
use docklane.Agent.Errors.{yields}
use docklane.Store.{OperationStatus, NodeOperationType, NodeOperationRecord, Db}
use docklane.Store.Operations
use docklane.Store.NodeOperations
use docklane.Store.NodeOperations.{find_operation, update_rows}
use docklane.Store.NodeOperations.Rows.{find-update_rows, is_open}
use docklane.Exec.{Env, Requests, requests, World}
use docklane.Exec.Atomic.{durable, Holds-durable}
use docklane.Traces.{Kept}
use docklane.Exec.Keeps.{Keeps, Keeps-bind, Keeps-bind_of, Keeps-pure, Keeps-if}
use docklane.Exec.Keeps.Tables.{Holds, Holds-statement, Holds-transaction}
use docklane.Exec.Returns.{Returns, Returns-pure, Returns-bind, Returns-if, Yields-ask}
use docklane.Node.Classify.{NodeMutationDecision, classify_node_mutation}
use docklane.Node.Verify.{
  is_converged, affected_services_converged, complete, complete_type, settle_round,
  verify_and_complete_locked,
}
use docklane.Node.Keeps.Verifying.{Bears, affected_services-Keeps, attended-Keeps, verified-Keeps}

-- A service whose placement the agent has called converged.
pub record Placed (env : Env) (service_id : String) : Type 0 where
  pub call : ℕ
  pub placement : ServicePlacementResponse
  pub answered : env.check_service_placement call service_id ≡ yields placement
  pub converged : placement.status ≡ PlacementStatus.converged

abbrev pub Settled : Env → NodeOperationType → List String → Type 0
Settled env NodeOperationType.labels services = All (Placed env) services
Settled env NodeOperationType.drain services = Unit
Settled env NodeOperationType.activate services = Unit

-- An inspection of the operation's node that is classified a success; for LABELS, every affected
-- service is placed too.
pub record Evidence (env : Env) (operation : NodeOperationRecord) : Type 0 where
  pub call : ℕ
  pub current : NodeDetailResponse
  pub inspected : env.inspect_node call operation.node_id ≡ yields current
  pub classified : classify_node_mutation operation current ≡ NodeMutationDecision.success
  pub settled : Settled env operation.type operation.affected_service_ids

abbrev pub is_success : OperationStatus → Bool
is_success OperationStatus.success = true
is_success _ = false

-- A row that is SUCCESS has `E` behind it.
abbrev pub Backed : Type 0 → String → Requests → Db → Type 0
Backed E id l db =
    (r : NodeOperationRecord) → find_operation id db ≡ some r → is_success r.status ≡ true → E

module _ {E : Type 0} (f : NodeOperationRecord → NodeOperationRecord)
    (failing : (r : NodeOperationRecord) → is_success (f r).status ≡ false) where
  updated-Backed :
      (b : Bool) (old new : NodeOperationRecord)
      → (if b then f old else old) ≡ new
      → (is_success old.status ≡ true → E)
      → is_success new.status ≡ true
      → E
  updated-Backed true old new e back h =
      let n = failing old in let m = ap (λ (r : NodeOperationRecord). is_success r.status) e in cc
  updated-Backed false old new e back h =
      back (ap (λ (r : NodeOperationRecord). is_success r.status) e ∙ h)

  found-Backed :
      (id' : String) (found : Option NodeOperationRecord) (new : NodeOperationRecord)
      → Option.map (λ r. if is_open id' r then f r else r) found ≡ some new
      → ((r : NodeOperationRecord) → found ≡ some r → is_success r.status ≡ true → E)
      → is_success new.status ≡ true
      → E
  found-Backed id' none new e back h = cc
  found-Backed id' (some old) new e back h =
      updated-Backed (is_open id' old) old new (some_inj e) (back old refl) h

attention-Kept :
    {E : Type 0} (id id' code message : String)
    → Kept (Backed E id) (NodeOperations.mark_needs_attention id' code message)
unfolding find_operation NodeOperations.mark_needs_attention
attention-Kept id id' code message l db back new e h =
    found-Backed _ (λ r. refl) id' (find (λ r. r.id == id) db.node_operations) new
      (sym (find-update_rows id id' _ (λ r. refl) db.node_operations) ∙ e) back h

Backed-Bears : {E : Type 0} (id : String) → Bears (Backed E id)
unfolding find_operation Operations.audit
Backed-Bears id = record { needs_attention = attention-Kept id; audits = λ event l db back. back }

is_converged-inv : (s : PlacementStatus) → is_converged s ≡ true → s ≡ PlacementStatus.converged
is_converged-inv PlacementStatus.converged h = refl
is_converged-inv PlacementStatus.pending h = cc
is_converged-inv PlacementStatus.unknown h = cc

-- Where the services are called converged, the agent has called each of them so.
abbrev Places : Env → List String → Bool → Type 0
Places env ids true = All (Placed env) ids
Places env ids false = Unit

module _ (env : Env) where
  affected_services-Returns :
      (ids : List String) → Returns (Places env ids) (affected_services_converged env ids)
  unfolding affected_services_converged
  affected_services-Returns [] = Returns-pure true tt
  affected_services-Returns (id ∷ ids) = Returns-bind _ _ λ placement y.
      let (n, said) = Yields-ask env _ placement y in
      Returns-if (is_converged placement.status) _ _
        (λ c. record {
          at = λ w b e.
              more id ids b
                (record {
                  call = n;
                  placement = placement;
                  answered = said;
                  converged = is_converged-inv placement.status c;
                })
                ((affected_services-Returns ids).at w b e);
        })
        (λ _. Returns-pure false tt)
    where
      more :
          (id : String) (ids : List String) (b : Bool)
          → Placed env id
          → Places env ids b
          → Places env (id ∷ ids) b
      more id ids true p q = (p, q)
      more id ids false p q = tt

module _ (env : Env) (operation : NodeOperationRecord) where
  abbrev Q : Requests → Db → Type 0
  Q = Backed (Evidence env operation) operation.id

  complete-Keeps :
      (current : NodeDetailResponse)
      → Evidence env operation
      → Keeps (Holds Q) (complete env operation current)
  unfolding complete
  complete-Keeps current evidence =
      Keeps-bind _ _
        (Holds-transaction env _ (
          Keeps-bind _ _ (Holds-statement env _ (λ now l db q r e h. evidence))
            (λ _. Holds-statement env _ (λ now. (Backed-Bears operation.id).audits _))))
        (λ _. Keeps-pure _)

  complete_type-Keeps :
      (t : NodeOperationType) (current : NodeDetailResponse)
      → (Settled env t operation.affected_service_ids → Evidence env operation)
      → Keeps (Holds Q) (complete_type env t operation current)
  unfolding complete_type
  complete_type-Keeps NodeOperationType.labels current evidence =
      Keeps-bind_of _ _ (affected_services-Keeps env operation.affected_service_ids) λ converged y.
        let places =
          (affected_services-Returns env operation.affected_service_ids).at y.before converged
            y.returned in
        Keeps-if converged _ _
          (λ e.
            complete-Keeps current
              (evidence (subst (Places env operation.affected_service_ids) e places)))
          (λ _. Keeps-pure _)
  complete_type-Keeps NodeOperationType.drain current evidence =
      complete-Keeps current (evidence tt)
  complete_type-Keeps NodeOperationType.activate current evidence =
      complete-Keeps current (evidence tt)

  settled-Keeps :
      (d : NodeMutationDecision) (current : NodeDetailResponse) (call : ℕ)
      → env.inspect_node call operation.node_id ≡ yields current
      → classify_node_mutation operation current ≡ d
      → Keeps (Holds Q) (settle_round env d operation current)
  unfolding settle_round
  settled-Keeps NodeMutationDecision.pending current call said e = Keeps-pure _
  settled-Keeps NodeMutationDecision.success current call said e =
      complete_type-Keeps operation.type current λ placed. record {
        call = call;
        current = current;
        inspected = said;
        classified = e;
        settled = placed;
      }
  settled-Keeps (NodeMutationDecision.external_conflict m) current call said e =
      Keeps-bind _ _ (attended-Keeps env (Backed-Bears operation.id) operation _ _ _)
        (λ _. Keeps-pure _)

  -- Where the operation's row was not SUCCESS and no transaction was open: if the row is SUCCESS after
  -- verifyAndCompleteLocked, in the tables that the session sees or in those that are committed, then
  -- the agent has answered an inspection of the operation's node that is classified a success, and,
  -- for LABELS, has called the placement of every affected service converged.
  pub verify_node-Evidence :
      (w : World)
      → w.saved ≡ none
      → ((r : NodeOperationRecord)
          → find_operation operation.id w.db ≡ some r
          → is_success r.status ≡ false)
      → Backed
          (Evidence env operation)
          operation.id
          (requests w)
          (verify_and_complete_locked env operation w).1.db
        × Backed
            (Evidence env operation)
            operation.id
            (requests w)
            (durable (verify_and_complete_locked env operation w).1)
  verify_node-Evidence w closed before =
      let held : Holds Q (verify_and_complete_locked env operation w).1 =
        (verified-Keeps env (Backed-Bears operation.id) operation (λ current y.
            let (n, said) = Yields-ask env _ current y in
            settled-Keeps (classify_node_mutation operation current) current n said refl)).at
          w (record { seen = λ r e h. absurd (let n = before r e in cc); kept = λ d e. cc }) in
      (held.seen, Holds-durable _ held)
