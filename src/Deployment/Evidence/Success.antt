-- ===== src/Deployment/Evidence/Success.antt =====
-- apps/api/src/deployments/deployment.service.ts: verifyAndComplete makes a deployment a SUCCESS only
-- behind an inspection, a placement and a health check that were good.
use docklane.Prelude.{
  ℕ, zero, suc, ◌≡◌, refl, String, true, false, Option, none, some, ltb, ◌==◌, String-eq, subst,
}
use mathlib.Core.Option
use docklane.Agent.{ServiceDetailResponse, ServicePlacementResponse, PlacementStatus}
use docklane.Agent.Errors.{yields}
use docklane.Store.{DeploymentRecord, Db}
use docklane.Store.Deployments.{find_deployment, is_success}
use docklane.Exec.{
  Decision, pending, success, rollback_paused, failed, external_conflict, decided, unavailable,
  Failure, agent, conflict, bad_gateway, not_found, service_unavailable, duplicate_dispatch, error,
  insufficient_capacity, guarded, stuck, World, Env, M, pure, Requests,
}
use docklane.Exec.Keeps.{
  Yields, Keeps, Keeps-bind, Keeps-bind_of, Keeps-pure, Keeps-raise, Keeps-if, Keeps-on_result,
  Keeps-on_result_of, Keeps-date_now,
}
use docklane.Exec.Keeps.Tables.{Holds, Holds-ask, Holds-sleep}
use docklane.Exec.Returns.{Returns, Returns-pure, Returns-on_result, Yields-ask}
use docklane.Health.Verifier
use docklane.Health.Keeps
use docklane.Deployment.Classify.{classify_deployment_snapshot}
use docklane.Deployment.Verify.{
  Verification, placement_decision, with_placement, classify_deployment_convergence, inspect,
  pass_success, convergence_guard, needs_attention, failed_with, settle_final, final_step,
  settle_health_error, health_step, settle_first, verify_round, verification_timed_out, verify_loop,
  verify_and_complete,
}
use docklane.Deployment.Evidence.{Backed}
use docklane.Deployment.Evidence.Writes.{
  fail-Keeps, attention-Keeps, mark_verification_pending-Keeps, persist_success-Keeps,
  require_deployment-Keeps,
}

-- The agent has shown the service as it was asked for, and its tasks where they may be.
pub record Converged (env : Env) (v : Verification) : Type 0 where
  pub current : ServiceDetailResponse
  pub inspected_at : ℕ
  pub inspected : env.inspect_service inspected_at v.plan.service_id ≡ yields current
  pub classified : classify_deployment_snapshot current v.plan v.digest v.no_op ≡ success
  pub placed_at : ℕ
  pub placement : ServicePlacementResponse
  pub placed : env.check_service_placement placed_at v.plan.service_id ≡ yields placement
  pub converged : placement.status ≡ PlacementStatus.converged

-- And the health check, with its guard, has returned.
pub record Evidence (env : Env) (v : Verification) : Type 0 where
  pub final : Converged env v
  pub healthy : Yields (Verifier.verify env v.health (convergence_guard env v)) tt

-- The placement that lets a decision through.
pub record Placed (env : Env) (service_id : String) (snapshot : Decision) : Type 0 where
  pub snapshot_success : snapshot ≡ success
  pub call : ℕ
  pub placement : ServicePlacementResponse
  pub answer : env.check_service_placement call service_id ≡ yields placement
  pub converged : placement.status ≡ PlacementStatus.converged

converged_of_success :
    (s : PlacementStatus) → placement_decision s ≡ success → s ≡ PlacementStatus.converged
unfolding placement_decision
converged_of_success PlacementStatus.converged e = refl
converged_of_success PlacementStatus.pending e = cc
converged_of_success PlacementStatus.unknown e = cc

module _ (env : Env) (service_id : String) where
  refused-Returns :
      (decision : Decision)
      → (decision ≡ success → Placed env service_id decision)
      → Returns (λ d. d ≡ success → Placed env service_id decision) (pure decision)
  refused-Returns decision k = Returns-pure decision k

  pub with_placement-Returns :
      (decision : Decision)
      → Returns
          (λ d. d ≡ success → Placed env service_id decision)
          (with_placement env service_id decision)
  unfolding with_placement
  with_placement-Returns success =
      Returns-on_result _ _ _
        (λ placement seen. Returns-pure _ λ e.
          let (n, answer) = Yields-ask env _ placement seen in
          record {
            snapshot_success = refl;
            call = n;
            placement = placement;
            answer = answer;
            converged = converged_of_success placement.status e;
          })
        (λ e. Returns-pure _ (λ p. cc))
  with_placement-Returns pending = Returns-pure _ (λ e. cc)
  with_placement-Returns rollback_paused = Returns-pure _ (λ e. cc)
  with_placement-Returns failed = Returns-pure _ (λ e. cc)
  with_placement-Returns external_conflict = Returns-pure _ (λ e. cc)

module _ (env : Env) (v : Verification) where
  -- A decision that is a success, of a service that was inspected.
  Converged-of_Yields :
      (current : ServiceDetailResponse)
      → Yields (inspect env v) current
      → Yields (classify_deployment_convergence env v current) success
      → Converged env v
  unfolding inspect classify_deployment_convergence
  Converged-of_Yields current seen decided_success =
      let (n, inspected) = Yields-ask env _ current seen in
      let p =
        (with_placement-Returns env v.plan.service_id
            (classify_deployment_snapshot current v.plan v.digest v.no_op)).at
          decided_success.before success decided_success.returned refl in
      record {
        current = current;
        inspected_at = n;
        inspected = inspected;
        classified = p.snapshot_success;
        placed_at = p.call;
        placement = p.placement;
        placed = p.answer;
        converged = p.converged;
      }

  abbrev Q : Requests → Db → Type 0
  Q = Backed is_success (Evidence env v) v.deployment_id

  with_placement-Keeps :
      (service_id : String) (d : Decision) → Keeps (Holds Q) (with_placement env service_id d)
  unfolding with_placement
  with_placement-Keeps service_id success =
      Keeps-on_result _ _ _ (Holds-ask env _) (λ p. Keeps-pure _) (λ e. Keeps-pure _)
  with_placement-Keeps service_id pending = Keeps-pure _
  with_placement-Keeps service_id rollback_paused = Keeps-pure _
  with_placement-Keeps service_id failed = Keeps-pure _
  with_placement-Keeps service_id external_conflict = Keeps-pure _

  classify-Keeps :
      (current : ServiceDetailResponse)
      → Keeps (Holds Q) (classify_deployment_convergence env v current)
  unfolding classify_deployment_convergence
  classify-Keeps current = with_placement-Keeps _ _

  inspect-Keeps : Keeps (Holds Q) (inspect env v)
  unfolding inspect
  inspect-Keeps = Holds-ask env _

  pass_success-Keeps : (d : Decision) → Keeps (Holds Q) (pass_success env d)
  unfolding pass_success
  pass_success-Keeps success = Keeps-pure _
  pass_success-Keeps pending = Keeps-raise _
  pass_success-Keeps rollback_paused = Keeps-raise _
  pass_success-Keeps failed = Keeps-raise _
  pass_success-Keeps external_conflict = Keeps-raise _

  convergence_guard-Keeps : Keeps (Holds Q) (convergence_guard env v)
  unfolding convergence_guard
  convergence_guard-Keeps =
      Keeps-on_result _ _ _ inspect-Keeps
        (λ current. Keeps-bind _ _ (classify-Keeps current) pass_success-Keeps) (λ e. Keeps-raise _)

  needs_attention-Keeps :
      (code message : String) → Keeps (Holds Q) (needs_attention env v code message)
  unfolding needs_attention
  needs_attention-Keeps code message =
      Keeps-bind _ _
        (attention-Keeps env (Evidence env v) v.deployment_id v.operation_id code message)
        (λ _. require_deployment-Keeps env v.deployment_id)

  failed_with-Keeps : (code message : String) → Keeps (Holds Q) (failed_with env v code message)
  unfolding failed_with
  failed_with-Keeps code message =
      Keeps-bind _ _ (fail-Keeps env (Evidence env v) v.deployment_id v.operation_id code message)
        (λ _. require_deployment-Keeps env v.deployment_id)

  module _ (again : Option String → M DeploymentRecord)
      (kept : (e : Option String) → Keeps (Holds Q) (again e)) where
    settle_final-Keeps :
        (current : ServiceDetailResponse) (d : Decision)
        → (d ≡ success → Evidence env v)
        → Keeps (Holds Q) (settle_final env v current again d)
    unfolding settle_final
    settle_final-Keeps current pending e = kept none
    settle_final-Keeps current rollback_paused e = needs_attention-Keeps _ _
    settle_final-Keeps current failed e = failed_with-Keeps _ _
    settle_final-Keeps current external_conflict e = needs_attention-Keeps _ _
    settle_final-Keeps current success e =
        Keeps-bind _ _
          (persist_success-Keeps env (Evidence env v) v.deployment_id (e refl) v.operation_id
            v.no_op current)
          (λ _. require_deployment-Keeps env v.deployment_id)

    final_step-Keeps :
        Yields (Verifier.verify env v.health (convergence_guard env v)) tt
        → Keeps (Holds Q) (final_step env v again)
    unfolding final_step
    final_step-Keeps healthy =
        Keeps-on_result_of _ _ _ inspect-Keeps
          (λ current seen. Keeps-bind_of _ _ (classify-Keeps current) λ d said.
            settle_final-Keeps current d λ e. record {
              final =
                  Converged-of_Yields current seen
                    (subst (Yields (classify_deployment_convergence env v current)) e said);
              healthy = healthy;
            })
          (λ e. kept _)

    settle_health_error-Keeps : (e : Failure) → Keeps (Holds Q) (settle_health_error env v again e)
    unfolding settle_health_error
    settle_health_error-Keeps (guarded (decided external_conflict) m) = needs_attention-Keeps _ _
    settle_health_error-Keeps (guarded (decided rollback_paused) m) = needs_attention-Keeps _ _
    settle_health_error-Keeps (guarded (decided failed) m) = failed_with-Keeps _ _
    settle_health_error-Keeps (guarded unavailable m) = kept _
    settle_health_error-Keeps (guarded (decided pending) m) = kept _
    settle_health_error-Keeps (guarded (decided success) m) = kept _
    settle_health_error-Keeps (agent e) = failed_with-Keeps _ _
    settle_health_error-Keeps (conflict m) = failed_with-Keeps _ _
    settle_health_error-Keeps (bad_gateway m) = failed_with-Keeps _ _
    settle_health_error-Keeps (not_found m) = failed_with-Keeps _ _
    settle_health_error-Keeps (service_unavailable m) = failed_with-Keeps _ _
    settle_health_error-Keeps duplicate_dispatch = failed_with-Keeps _ _
    settle_health_error-Keeps (error m) = failed_with-Keeps _ _
    settle_health_error-Keeps (insufficient_capacity r) = failed_with-Keeps _ _
    settle_health_error-Keeps stuck = failed_with-Keeps _ _

    health_step-Keeps : Keeps (Holds Q) (health_step env v again)
    unfolding health_step
    health_step-Keeps =
        Keeps-on_result_of _ _ _ (Keeps.verify-Keeps env v.health _ convergence_guard-Keeps)
          (λ _ healthy. final_step-Keeps healthy) settle_health_error-Keeps

    settle_first-Keeps : (d : Decision) → Keeps (Holds Q) (settle_first env v again d)
    unfolding settle_first
    settle_first-Keeps rollback_paused = needs_attention-Keeps _ _
    settle_first-Keeps failed = failed_with-Keeps _ _
    settle_first-Keeps external_conflict = needs_attention-Keeps _ _
    settle_first-Keeps pending = kept none
    settle_first-Keeps success = health_step-Keeps

    verify_round-Keeps : Keeps (Holds Q) (verify_round env v again)
    unfolding verify_round
    verify_round-Keeps =
        Keeps-on_result _ _ _ inspect-Keeps
          (λ current. Keeps-bind _ _ (classify-Keeps current) settle_first-Keeps) (λ e. kept _)

  verification_timed_out-Keeps :
      (last_error : Option String) → Keeps (Holds Q) (verification_timed_out env v last_error)
  unfolding verification_timed_out
  verification_timed_out-Keeps last_error =
      Keeps-if (Option.get_or last_error "" == "") _ _
        (λ _.
          Keeps-bind _ _
            (mark_verification_pending-Keeps env (Evidence env v) v.deployment_id v.operation_id _
              _)
            (λ _. require_deployment-Keeps env v.deployment_id))
        (λ _. needs_attention-Keeps _ _)

  verify_loop-Keeps :
      (fuel deadline : ℕ) (last_error : Option String)
      → Keeps (Holds Q) (verify_loop env fuel v deadline last_error)
  unfolding verify_loop
  verify_loop-Keeps zero deadline last_error = Keeps-bind _ _ Keeps-date_now λ now.
      Keeps-if (ltb now deadline) _ _ (λ _. Keeps-raise _)
        (λ _. verification_timed_out-Keeps last_error)
  verify_loop-Keeps (suc fuel) deadline last_error = Keeps-bind _ _ Keeps-date_now λ now.
      Keeps-if (ltb now deadline) _ _
        (λ _.
          verify_round-Keeps _
            (λ e. Keeps-bind _ _ (Holds-sleep env _) (λ _. verify_loop-Keeps fuel deadline e)))
        (λ _. verification_timed_out-Keeps last_error)

  verify_and_complete-Keeps : Keeps (Holds Q) (verify_and_complete env v)
  unfolding verify_and_complete
  verify_and_complete-Keeps = Keeps-bind _ _ Keeps-date_now (λ now. verify_loop-Keeps _ _ none)

-- A deployment that was no SUCCESS before its verification, with no transaction open, and is one
-- afterwards, has evidence: an answer of the agent in which the service has converged, an answer in
-- which its placement has, and a health check, guarded by such inspections, that returned.
pub verify_and_complete-Evidence :
    (env : Env) (v : Verification) (w : World) (d : DeploymentRecord)
    → w.saved ≡ none
    → ((old : DeploymentRecord)
        → find_deployment v.deployment_id w.db ≡ some old
        → is_success old.status ≡ false)
    → find_deployment v.deployment_id (verify_and_complete env v w).1.db ≡ some d
    → is_success d.status ≡ true
    → Evidence env v
verify_and_complete-Evidence env v w d closed unfinished found finished =
    ((verify_and_complete-Keeps env v).at w
        (record { seen = λ old e h. let n = unfinished old e in cc; kept = λ db e. cc })).seen
      d found finished
