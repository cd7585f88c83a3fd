-- ===== src/Deployment/Evidence/Writes.antt =====
-- apps/api/src/deployments/deployment.service.ts: the writes of a verdict, with what they keep.
use docklane.Prelude.{ℕ, refl, String, Bool, Option, none, some}
use docklane.Prelude.Json.{Json}
use docklane.Agent.{ServiceDetailResponse}
use docklane.Store.{DeploymentStatus, Db}
use docklane.Store.Operations
use docklane.Store.Operations.{update_rows, find_operation}
use docklane.Store.Deployments
use docklane.Store.Deployments.{is_success, find_deployment, update_deployments}
use docklane.Exec.{Env, Requests}
use docklane.Exec.Keeps.{Keeps, Keeps-bind, Keeps-pure, Keeps-raise}
use docklane.Exec.Keeps.Tables.{Holds, Holds-statement, Holds-query, Holds-transaction}
use docklane.Traces.{Stable, Kept}
use docklane.Mutation.Keeps.{
  mark_failed-Kept, mark_needs_attention-Kept, mark_verification_pending-Kept, mark_success-Kept,
}
use docklane.Deployment.Persist.{
  or_throw, require_deployment, record_state, fail, attention, mark_verification_pending,
  persist_success,
}
use docklane.Deployment.Evidence.{Backed, update-Backed}

-- The operations and the events say nothing of a deployment.
pub Backed-Stable :
    (reached : DeploymentStatus → Bool) (E : Type 0) (id : String) → Stable (Backed reached E id)
unfolding find_deployment Operations.audit
Backed-Stable reached E id = record {
  updates = λ id' f same l db back. back;
  node_updates = λ id' f same l db back. back;
  audits = λ event l db back. back;
}

module _ (env : Env) {Q : Requests → Db → Type 0} where
  pub or_throw-Keeps :
      {A : Type 0} (message : String) (o : Option A) → Keeps (Holds Q) (or_throw env message o)
  unfolding or_throw
  or_throw-Keeps message none = Keeps-raise _
  or_throw-Keeps message (some a) = Keeps-pure a

  pub require_deployment-Keeps : (id : String) → Keeps (Holds Q) (require_deployment env id)
  unfolding require_deployment
  require_deployment-Keeps id = Keeps-bind _ _ (Holds-query env _) (or_throw-Keeps _)

  pub record_state-Keeps :
      (stable : Stable Q) (on_operation : Db → Db) (on_deployment : ℕ → Db → Db)
      (operation_id missing action : String) (after_json : Json)
      → Kept Q on_operation
      → ((now : ℕ) → Kept Q (on_deployment now))
      → Keeps
          (Holds Q)
          (record_state env on_operation on_deployment operation_id missing action after_json)
  unfolding record_state
  record_state-Keeps stable on_operation on_deployment operation_id missing action json ko kd =
      Holds-transaction env _ (
        Keeps-bind _ _ (Holds-statement env _ (λ now. ko)) λ _.
          Keeps-bind _ _ (Holds-statement env on_deployment kd) λ _.
            Keeps-bind _ _ (Holds-query env _) λ found.
              Keeps-bind _ _ (or_throw-Keeps missing found)
                (λ operation. Holds-statement env _ (λ now. stable.audits _)))

module _ (env : Env) (E : Type 0) (id : String) where
  pub fail-Keeps :
      (operation_id code message : String)
      → Keeps (Holds (Backed is_success E id)) (fail env id operation_id code message)
  unfolding fail Deployments.mark_failed
  fail-Keeps operation_id code message =
      let stable = Backed-Stable is_success E id in
      record_state-Keeps env stable _ _ _ _ _ _ (mark_failed-Kept stable operation_id code message)
        (λ now l db. update-Backed is_success id id _ l db (λ d. refl) (λ d. refl))

  pub attention-Keeps :
      (operation_id code message : String)
      → Keeps (Holds (Backed is_success E id)) (attention env id operation_id code message)
  unfolding attention Deployments.mark_needs_attention
  attention-Keeps operation_id code message =
      let stable = Backed-Stable is_success E id in
      record_state-Keeps env stable _ _ _ _ _ _
        (mark_needs_attention-Kept stable operation_id code message)
        (λ now l db. update-Backed is_success id id _ l db (λ d. refl) (λ d. refl))

  pub mark_verification_pending-Keeps :
      (operation_id code message : String)
      → Keeps
          (Holds (Backed is_success E id))
          (mark_verification_pending env id operation_id code message)
  unfolding mark_verification_pending Deployments.mark_verification_pending
  mark_verification_pending-Keeps operation_id code message =
      let stable = Backed-Stable is_success E id in
      record_state-Keeps env stable _ _ _ _ _ _
        (mark_verification_pending-Kept stable operation_id code message)
        (λ now l db. update-Backed is_success id id _ l db (λ d. refl) (λ d. refl))

  -- The write of a success is where `E` is needed.
  pub persist_success-Keeps :
      E
      → (operation_id : String) (no_op : Bool) (current : ServiceDetailResponse)
      → Keeps (Holds (Backed is_success E id)) (persist_success env id operation_id no_op current)
  unfolding persist_success
  persist_success-Keeps evidence operation_id no_op current =
      let stable = Backed-Stable is_success E id in
      Holds-transaction env _ (
        Keeps-bind _ _ (Holds-statement env _ (λ now. mark_success-Kept stable operation_id _)) λ _.
          Keeps-bind _ _ (Holds-statement env _ (λ now l db back d e h. evidence)) λ _.
            Keeps-bind _ _ (Holds-query env _) λ found.
              Keeps-bind _ _ (or_throw-Keeps env _ found) λ operation.
                Keeps-bind _ _ (require_deployment-Keeps env id)
                  (λ persisted. Holds-statement env _ (λ now. stable.audits _)))
