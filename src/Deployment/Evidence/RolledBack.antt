-- ===== src/Deployment/Evidence/RolledBack.antt =====
-- apps/api/src/deployments/deployment.service.ts: verifyRollbackAndComplete makes a deployment
-- ROLLED_BACK only behind an inspection, a placement and a health check that were good.
use docklane.Prelude.{
  ℕ, zero, suc, ◌≡◌, ◌≢◌, refl, String, Text, true, false, Option, none, some, ltb, ◌==◌, ℕ-eq,
  String-eq, Option-eq, subst, arith,
}
use mathlib.Core.Option
use docklane.Agent.{
  ServiceDetailResponse, ServiceMutationPlan, ServicePlacementResponse, PlacementStatus,
}
use docklane.Agent.Errors.{yields}
use docklane.Store.{DeploymentRecord, Db}
use docklane.Store.Deployments
use docklane.Store.Deployments.{find_deployment, is_rolled_back}
use docklane.Exec.{
  Decision, pending, success, rollback_paused, failed, external_conflict, decided, unavailable,
  Failure, agent, conflict, bad_gateway, not_found, service_unavailable, duplicate_dispatch, error,
  insufficient_capacity, guarded, stuck, World, Env, M, Requests,
}
use docklane.Exec.Keeps.{
  Yields, Keeps, Keeps-bind, Keeps-bind_of, Keeps-pure, Keeps-raise, Keeps-if, Keeps-on_result,
  Keeps-on_result_of, Keeps-date_now,
}
use docklane.Exec.Keeps.Tables.{Holds, Holds-ask, Holds-sleep}
use docklane.Exec.Returns.{Returns, Returns-pure, Returns-on_result, Yields-ask}
use docklane.Health.Verifier
use docklane.Health.Keeps
use docklane.Mutation.Keeps.{
  mark_needs_attention-Kept, mark_verification_pending-Kept, mark_success-Kept,
}
use docklane.Deployment.Classify.{classify_rollback_snapshot}
use docklane.Deployment.Persist.{
  rollback_failed, rollback_attention, mark_rollback_verification_pending, persist_rolled_back,
}
use docklane.Deployment.Verify.{Verification, placement_decision, with_placement, inspect}
use docklane.Deployment.VerifyRollback.{
  classify_rollback_convergence, pass_rollback, rollback_guard, needs_attention, failed_with,
  settle_final, final_step, settle_health_error, health_step, settle_first, verify_round,
  verification_timed_out, verify_loop, verify_rollback_and_complete,
}
use docklane.Deployment.Evidence.{Backed, update-Backed}
use docklane.Deployment.Evidence.Writes.{
  Backed-Stable, record_state-Keeps, require_deployment-Keeps,
}
use docklane.Deployment.Evidence.Success.{with_placement-Returns}

-- The agent has shown the service as the rollback wanted it, and its tasks where they may be.
pub record RolledBack (env : Env) (v : Verification) : Type 0 where
  pub current : ServiceDetailResponse
  pub inspected_at : ℕ
  pub inspected : env.inspect_service inspected_at v.plan.service_id ≡ yields current
  pub classified : classify_rollback_snapshot current v.plan v.digest ≡ success
  pub placed_at : ℕ
  pub placement : ServicePlacementResponse
  pub placed : env.check_service_placement placed_at v.plan.service_id ≡ yields placement
  pub converged : placement.status ≡ PlacementStatus.converged

-- And the health check, with its guard, has returned.
pub record RollbackEvidence (env : Env) (v : Verification) : Type 0 where
  pub final : RolledBack env v
  pub healthy : Yields (Verifier.verify env v.health (rollback_guard env v)) tt

snapshot-not_paused :
    (current : ServiceDetailResponse) (plan : ServiceMutationPlan) (digest : Text)
    → classify_rollback_snapshot current plan digest ≢ rollback_paused
unfolding classify_rollback_snapshot
snapshot-not_paused current plan digest h = ground arith

placement-not_paused : (s : PlacementStatus) → placement_decision s ≢ rollback_paused
unfolding placement_decision
placement-not_paused PlacementStatus.converged e = cc
placement-not_paused PlacementStatus.pending e = cc
placement-not_paused PlacementStatus.unknown e = cc

with_placement-Paused :
    (env : Env) (service_id : String) (decision : Decision)
    → Returns
        (λ d. d ≡ rollback_paused → decision ≡ rollback_paused)
        (with_placement env service_id decision)
unfolding with_placement
with_placement-Paused env service_id success =
    Returns-on_result _ _ _
      (λ placement seen. Returns-pure _ (λ e. absurd (placement-not_paused placement.status e)))
      (λ e. Returns-pure _ (λ p. cc))
with_placement-Paused env service_id pending = Returns-pure _ (λ e. e)
with_placement-Paused env service_id rollback_paused = Returns-pure _ (λ e. e)
with_placement-Paused env service_id failed = Returns-pure _ (λ e. e)
with_placement-Paused env service_id external_conflict = Returns-pure _ (λ e. e)

module _ (env : Env) (E : Type 0) (id operation_id : String) where
  rollback_failed-Keeps :
      (code message : String)
      → Keeps
          (Holds (Backed is_rolled_back E id))
          (rollback_failed env id operation_id code message)
  unfolding rollback_failed Deployments.mark_rollback_failed
  rollback_failed-Keeps code message =
      let stable = Backed-Stable is_rolled_back E id in
      record_state-Keeps env stable _ _ _ _ _ _
        (mark_needs_attention-Kept stable operation_id code message)
        (λ now l db. update-Backed is_rolled_back id id _ l db (λ d. refl) (λ d. refl))

  rollback_attention-Keeps :
      (code message : String)
      → Keeps
          (Holds (Backed is_rolled_back E id))
          (rollback_attention env id operation_id code message)
  unfolding rollback_attention Deployments.mark_needs_attention
  rollback_attention-Keeps code message =
      let stable = Backed-Stable is_rolled_back E id in
      record_state-Keeps env stable _ _ _ _ _ _
        (mark_needs_attention-Kept stable operation_id code message)
        (λ now l db. update-Backed is_rolled_back id id _ l db (λ d. refl) (λ d. refl))

  mark_rollback_verification_pending-Keeps :
      (code message : String)
      → Keeps
          (Holds (Backed is_rolled_back E id))
          (mark_rollback_verification_pending env id operation_id code message)
  unfolding mark_rollback_verification_pending Deployments.mark_rollback_verification_pending
  mark_rollback_verification_pending-Keeps code message =
      let stable = Backed-Stable is_rolled_back E id in
      record_state-Keeps env stable _ _ _ _ _ _
        (mark_verification_pending-Kept stable operation_id code message)
        (λ now l db. update-Backed is_rolled_back id id _ l db (λ d. refl) (λ d. refl))

  persist_rolled_back-Keeps :
      E
      → (current : ServiceDetailResponse)
      → Keeps (Holds (Backed is_rolled_back E id)) (persist_rolled_back env id operation_id current)
  unfolding persist_rolled_back
  persist_rolled_back-Keeps evidence current =
      let stable = Backed-Stable is_rolled_back E id in
      record_state-Keeps env stable _ _ _ _ _ _ (mark_success-Kept stable operation_id _)
        (λ now l db back d e h. evidence)

module _ (env : Env) (v : Verification) where
  -- A decision that is a success, of a service that was inspected.
  RolledBack-of_Yields :
      (current : ServiceDetailResponse)
      → Yields (inspect env v) current
      → Yields (classify_rollback_convergence env v current) success
      → RolledBack env v
  unfolding inspect classify_rollback_convergence
  RolledBack-of_Yields current seen decided_success =
      let (n, inspected) = Yields-ask env _ current seen in
      let p =
        (with_placement-Returns env v.plan.service_id
            (classify_rollback_snapshot current v.plan v.digest)).at
          decided_success.before success decided_success.returned refl in
      record {
        current = current;
        inspected_at = n;
        inspected = inspected;
        classified = p.snapshot_success;
        placed_at = p.call;
        placement = p.placement;
        placed = p.answer;
        converged = p.converged;
      }

  -- A rollback's decision is never that the rollback is paused.
  decision-not_paused :
      (current : ServiceDetailResponse) (d : Decision)
      → Yields (classify_rollback_convergence env v current) d
      → d ≢ rollback_paused
  unfolding classify_rollback_convergence
  decision-not_paused current d said e = snapshot-not_paused current v.plan v.digest (
      (with_placement-Paused env v.plan.service_id
          (classify_rollback_snapshot current v.plan v.digest)).at
        said.before d said.returned e)

  abbrev Q : Requests → Db → Type 0
  Q = Backed is_rolled_back (RollbackEvidence env v) v.deployment_id

  with_placement-Keeps :
      (service_id : String) (d : Decision) → Keeps (Holds Q) (with_placement env service_id d)
  unfolding with_placement
  with_placement-Keeps service_id success =
      Keeps-on_result _ _ _ (Holds-ask env _) (λ p. Keeps-pure _) (λ e. Keeps-pure _)
  with_placement-Keeps service_id pending = Keeps-pure _
  with_placement-Keeps service_id rollback_paused = Keeps-pure _
  with_placement-Keeps service_id failed = Keeps-pure _
  with_placement-Keeps service_id external_conflict = Keeps-pure _

  classify-Keeps :
      (current : ServiceDetailResponse)
      → Keeps (Holds Q) (classify_rollback_convergence env v current)
  unfolding classify_rollback_convergence
  classify-Keeps current = with_placement-Keeps _ _

  inspect-Keeps : Keeps (Holds Q) (inspect env v)
  unfolding inspect
  inspect-Keeps = Holds-ask env _

  pass_rollback-Keeps : (d : Decision) → Keeps (Holds Q) (pass_rollback env d)
  unfolding pass_rollback
  pass_rollback-Keeps success = Keeps-pure _
  pass_rollback-Keeps pending = Keeps-raise _
  pass_rollback-Keeps rollback_paused = Keeps-raise _
  pass_rollback-Keeps failed = Keeps-raise _
  pass_rollback-Keeps external_conflict = Keeps-raise _

  rollback_guard-Keeps : Keeps (Holds Q) (rollback_guard env v)
  unfolding rollback_guard
  rollback_guard-Keeps =
      Keeps-on_result _ _ _ inspect-Keeps
        (λ current. Keeps-bind _ _ (classify-Keeps current) pass_rollback-Keeps)
        (λ e. Keeps-raise _)

  needs_attention-Keeps :
      (code message : String) → Keeps (Holds Q) (needs_attention env v code message)
  unfolding needs_attention
  needs_attention-Keeps code message =
      Keeps-bind _ _
        (rollback_attention-Keeps env (RollbackEvidence env v) v.deployment_id v.operation_id code
          message)
        (λ _. require_deployment-Keeps env v.deployment_id)

  failed_with-Keeps : (code message : String) → Keeps (Holds Q) (failed_with env v code message)
  unfolding failed_with
  failed_with-Keeps code message =
      Keeps-bind _ _
        (rollback_failed-Keeps env (RollbackEvidence env v) v.deployment_id v.operation_id code
          message)
        (λ _. require_deployment-Keeps env v.deployment_id)

  module _ (again : Option String → M DeploymentRecord)
      (kept : (e : Option String) → Keeps (Holds Q) (again e)) where
    settle_final-Keeps :
        (current : ServiceDetailResponse) (d : Decision)
        → (d ≡ success → RollbackEvidence env v)
        → d ≢ rollback_paused
        → Keeps (Holds Q) (settle_final env v current again d)
    unfolding settle_final
    settle_final-Keeps current pending e n = kept none
    settle_final-Keeps current rollback_paused e n = absurd (n refl)
    settle_final-Keeps current failed e n = failed_with-Keeps _ _
    settle_final-Keeps current external_conflict e n = needs_attention-Keeps _ _
    settle_final-Keeps current success e n =
        Keeps-bind _ _
          (persist_rolled_back-Keeps env (RollbackEvidence env v) v.deployment_id v.operation_id
            (e refl) current)
          (λ _. require_deployment-Keeps env v.deployment_id)

    final_step-Keeps :
        Yields (Verifier.verify env v.health (rollback_guard env v)) tt
        → Keeps (Holds Q) (final_step env v again)
    unfolding final_step
    final_step-Keeps healthy =
        Keeps-on_result_of _ _ _ inspect-Keeps
          (λ current seen. Keeps-bind_of _ _ (classify-Keeps current) λ d said.
            settle_final-Keeps current d
              (λ e. record {
                final =
                    RolledBack-of_Yields current seen
                      (subst (Yields (classify_rollback_convergence env v current)) e said);
                healthy = healthy;
              })
              (decision-not_paused current d said))
          (λ e. kept _)

    settle_health_error-Keeps : (e : Failure) → Keeps (Holds Q) (settle_health_error env v again e)
    unfolding settle_health_error
    settle_health_error-Keeps (guarded (decided external_conflict) m) = needs_attention-Keeps _ _
    settle_health_error-Keeps (guarded (decided rollback_paused) m) = kept _
    settle_health_error-Keeps (guarded (decided failed) m) = failed_with-Keeps _ _
    settle_health_error-Keeps (guarded unavailable m) = kept _
    settle_health_error-Keeps (guarded (decided pending) m) = kept _
    settle_health_error-Keeps (guarded (decided success) m) = kept _
    settle_health_error-Keeps (agent e) = failed_with-Keeps _ _
    settle_health_error-Keeps (conflict m) = failed_with-Keeps _ _
    settle_health_error-Keeps (bad_gateway m) = failed_with-Keeps _ _
    settle_health_error-Keeps (not_found m) = failed_with-Keeps _ _
    settle_health_error-Keeps (service_unavailable m) = failed_with-Keeps _ _
    settle_health_error-Keeps duplicate_dispatch = failed_with-Keeps _ _
    settle_health_error-Keeps (error m) = failed_with-Keeps _ _
    settle_health_error-Keeps (insufficient_capacity r) = failed_with-Keeps _ _
    settle_health_error-Keeps stuck = failed_with-Keeps _ _

    health_step-Keeps : Keeps (Holds Q) (health_step env v again)
    unfolding health_step
    health_step-Keeps =
        Keeps-on_result_of _ _ _ (Keeps.verify-Keeps env v.health _ rollback_guard-Keeps)
          (λ _ healthy. final_step-Keeps healthy) settle_health_error-Keeps

    settle_first-Keeps : (d : Decision) → Keeps (Holds Q) (settle_first env v again d)
    unfolding settle_first
    settle_first-Keeps rollback_paused = kept none
    settle_first-Keeps failed = failed_with-Keeps _ _
    settle_first-Keeps external_conflict = needs_attention-Keeps _ _
    settle_first-Keeps pending = kept none
    settle_first-Keeps success = health_step-Keeps

    verify_round-Keeps : Keeps (Holds Q) (verify_round env v again)
    unfolding verify_round
    verify_round-Keeps =
        Keeps-on_result _ _ _ inspect-Keeps
          (λ current. Keeps-bind _ _ (classify-Keeps current) settle_first-Keeps) (λ e. kept _)

  verification_timed_out-Keeps :
      (last_error : Option String) → Keeps (Holds Q) (verification_timed_out env v last_error)
  unfolding verification_timed_out
  verification_timed_out-Keeps last_error =
      Keeps-if (Option.get_or last_error "" == "") _ _
        (λ _.
          Keeps-bind _ _
            (mark_rollback_verification_pending-Keeps env (RollbackEvidence env v) v.deployment_id
              v.operation_id _ _)
            (λ _. require_deployment-Keeps env v.deployment_id))
        (λ _. needs_attention-Keeps _ _)

  verify_loop-Keeps :
      (fuel deadline : ℕ) (last_error : Option String)
      → Keeps (Holds Q) (verify_loop env fuel v deadline last_error)
  unfolding verify_loop
  verify_loop-Keeps zero deadline last_error = Keeps-bind _ _ Keeps-date_now λ now.
      Keeps-if (ltb now deadline) _ _ (λ _. Keeps-raise _)
        (λ _. verification_timed_out-Keeps last_error)
  verify_loop-Keeps (suc fuel) deadline last_error = Keeps-bind _ _ Keeps-date_now λ now.
      Keeps-if (ltb now deadline) _ _
        (λ _.
          verify_round-Keeps _
            (λ e. Keeps-bind _ _ (Holds-sleep env _) (λ _. verify_loop-Keeps fuel deadline e)))
        (λ _. verification_timed_out-Keeps last_error)

  verify_rollback_and_complete-Keeps : Keeps (Holds Q) (verify_rollback_and_complete env v)
  unfolding verify_rollback_and_complete
  verify_rollback_and_complete-Keeps =
      Keeps-bind _ _ Keeps-date_now (λ now. verify_loop-Keeps _ _ none)

-- A deployment that was not rolled back before the verification of its rollback, with no transaction
-- open, and is afterwards, has evidence: an answer of the agent in which the service is as the
-- rollback wanted it, an answer in which its placement has converged, and a health check, guarded by
-- such inspections, that returned.
pub verify_rollback_and_complete-RollbackEvidence :
    (env : Env) (v : Verification) (w : World) (d : DeploymentRecord)
    → w.saved ≡ none
    → ((old : DeploymentRecord)
        → find_deployment v.deployment_id w.db ≡ some old
        → is_rolled_back old.status ≡ false)
    → find_deployment v.deployment_id (verify_rollback_and_complete env v w).1.db ≡ some d
    → is_rolled_back d.status ≡ true
    → RollbackEvidence env v
verify_rollback_and_complete-RollbackEvidence env v w d closed unfinished found finished =
    ((verify_rollback_and_complete-Keeps env v).at w
        (record { seen = λ old e h. let n = unfinished old e in cc; kept = λ db e. cc })).seen
      d found finished
