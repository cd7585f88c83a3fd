-- ===== src/Node/Keeps/Verifying.antt =====
-- apps/api/src/operations/node-mutation.service.ts: the verification loop keeps an invariant of the
-- tables, if each round does that settles an inspection.
use docklane.Prelude.{ℕ, zero, suc, String, List, [], ◌∷◌, Option, none, some, ltb}
use docklane.Prelude.Json.{Json}
use docklane.Agent.{NodeDetailResponse}
use docklane.Store.{NodeOperationRecord, AuditEvent, Db}
use docklane.Store.Operations
use docklane.Store.NodeOperations
use docklane.Exec.{Env, Requests, ask, ◌>>=◌}
use docklane.Traces.{Kept}
use docklane.Exec.Keeps.{
  Keeps, Yields, Keeps-bind, Keeps-pure, Keeps-raise, Keeps-if, Keeps-on_result, Keeps-on_result_of,
  Keeps-date_now,
}
use docklane.Exec.Keeps.Tables.{
  Holds, Holds-ask, Holds-sleep, Holds-query, Holds-statement, Holds-transaction,
}
use docklane.Node.Classify.{classify_node_mutation}
use docklane.Node.Persist.{mark_needs_attention, require_operation, or_disappeared}
use docklane.Node.Verify.{
  is_converged, affected_services_converged, settle_round, give_up, verify_loop,
  verify_and_complete_locked,
}

-- `Q` survives a node operation's need of attention, and each event.
pub record Bears (Q : Requests → Db → Type 0) : Type 0 where
  pub needs_attention :
      (id code message : String) → Kept Q (NodeOperations.mark_needs_attention id code message)
  pub audits : (event : AuditEvent) → Kept Q (Operations.audit event)

module _ (env : Env) {Q : Requests → Db → Type 0} where
  or_disappeared-Keeps : (o : Option NodeOperationRecord) → Keeps (Holds Q) (or_disappeared env o)
  unfolding or_disappeared
  or_disappeared-Keeps none = Keeps-raise _
  or_disappeared-Keeps (some r) = Keeps-pure _

  pub require_operation-Keeps : (id : String) → Keeps (Holds Q) (require_operation env id)
  unfolding require_operation
  require_operation-Keeps id = Keeps-bind _ _ (Holds-query env _) or_disappeared-Keeps

  pub affected_services-Keeps :
      (ids : List String) → Keeps (Holds Q) (affected_services_converged env ids)
  unfolding affected_services_converged
  affected_services-Keeps [] = Keeps-pure _
  affected_services-Keeps (id ∷ ids) = Keeps-bind _ _ (Holds-ask env _) λ placement.
      Keeps-if (is_converged placement.status) _ _ (λ _. affected_services-Keeps ids)
        (λ _. Keeps-pure _)

module _ (env : Env) {Q : Requests → Db → Type 0} (bears : Bears Q) where
  pub attended-Keeps :
      (operation : NodeOperationRecord) (code message : String) (current : Option Json)
      → Keeps (Holds Q) (mark_needs_attention env operation code message current)
  unfolding mark_needs_attention
  attended-Keeps operation code message current = Holds-transaction env _ (
      Keeps-bind _ _
        (Holds-statement env _ (λ now. bears.needs_attention operation.id code message))
        (λ _. Holds-statement env _ (λ now. bears.audits _)))

  pub attention-Keeps :
      (operation : NodeOperationRecord) (code message : String) (current : Option Json)
      → Keeps (Holds Q) (
          mark_needs_attention env operation code message current >>= λ _.
          require_operation env operation.id)
  attention-Keeps operation code message current =
      Keeps-bind _ _ (attended-Keeps operation code message current)
        (λ _. require_operation-Keeps env operation.id)

  give_up-Keeps :
      (operation : NodeOperationRecord) (last : Option NodeDetailResponse)
      (last_error : Option String)
      → Keeps (Holds Q) (give_up env operation last last_error)
  unfolding give_up
  give_up-Keeps operation last last_error = attention-Keeps operation _ _ _

  module _ (operation : NodeOperationRecord)
      (settled : (current : NodeDetailResponse)
        → Yields (ask env (λ n. env.inspect_node n operation.node_id)) current
        → Keeps
            (Holds Q)
            (settle_round env (classify_node_mutation operation current) operation current)) where
    verify_loop-Keeps :
        (fuel deadline : ℕ) (last : Option NodeDetailResponse) (last_error : Option String)
        → Keeps (Holds Q) (verify_loop env fuel operation deadline last last_error)
    unfolding verify_loop
    verify_loop-Keeps zero deadline last last_error = Keeps-bind _ _ Keeps-date_now λ now.
        Keeps-if (ltb now deadline) _ _ (λ _. Keeps-raise _)
          (λ _. give_up-Keeps operation last last_error)
    verify_loop-Keeps (suc fuel) deadline last last_error = Keeps-bind _ _ Keeps-date_now λ now.
        Keeps-if (ltb now deadline) _ _
          (λ _.
            Keeps-on_result_of _ _ _ (Holds-ask env _)
              (λ current y.
                Keeps-on_result _ _ _ (settled current y)
                  (λ done.
                    Keeps-if done _ _ (λ _. require_operation-Keeps env operation.id)
                      (λ _.
                        Keeps-bind _ _ (Holds-sleep env _)
                          (λ _. verify_loop-Keeps fuel deadline _ _)))
                  (λ e.
                    Keeps-bind _ _ (Holds-sleep env _) (λ _. verify_loop-Keeps fuel deadline _ _)))
              (λ e. Keeps-bind _ _ (Holds-sleep env _) (λ _. verify_loop-Keeps fuel deadline _ _)))
          (λ _. give_up-Keeps operation last last_error)

    pub verified-Keeps : Keeps (Holds Q) (verify_and_complete_locked env operation)
    unfolding verify_and_complete_locked
    verified-Keeps = Keeps-bind _ _ Keeps-date_now (λ now. verify_loop-Keeps _ _ none none)
