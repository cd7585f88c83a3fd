-- ===== src/Deployment/Termination.antt =====
-- apps/api/src/deployments/deployment.service.ts: the loop of verifyAndComplete ends within its rounds.
use docklane.Prelude.{
  ℕ, zero, suc, ◌+◌, ◌*◌, ◌≤◌, ◌≢◌, Bool, Option, none, some, ltb, ltb→lt, ◌==◌, String, String-eq,
  arith,
}
use mathlib.Core.Option
use docklane.Prelude.Json.{Json}
use docklane.Agent.{ServiceDetailResponse}
use docklane.Store.{DeploymentRecord, Db}
use docklane.Exec.{
  Decision, pending, success, rollback_paused, failed, external_conflict, decided, unavailable,
  Failure, agent, conflict, bad_gateway, not_found, service_unavailable, duplicate_dispatch, error,
  insufficient_capacity, guarded, stuck, err, World, Env, M,
}
use docklane.Exec.Ends.{
  Ends, Ends-pure, Ends-raise, Ends-if, Ends-bind, Ends-bind_date_now, Ends-bind_sleep,
  Ends-on_result, Ends-ask, Ends-query, Ends-statement, Ends-transaction,
}
use docklane.Health.Termination
use docklane.Health.Verifier
use docklane.Mutation.Verify.{verify_timeout_ms, verify_interval_ms, rounds}
use docklane.Deployment.Persist.{
  or_throw, require_deployment, record_state, fail, attention, mark_verification_pending,
  persist_success,
}
use docklane.Deployment.Verify.{
  Verification, with_placement, classify_deployment_convergence, inspect, pass_success,
  convergence_guard, needs_attention, failed_with, settle_final, final_step, settle_health_error,
  health_step, settle_first, verify_round, verification_timed_out, verify_loop, verify_and_complete,
}

module _ (env : Env) {t : ℕ} where
  or_throw-Ends : {A : Type 0} (message : String) (o : Option A) → Ends t (or_throw env message o)
  unfolding or_throw
  or_throw-Ends message none = Ends-raise _ (λ p. cc)
  or_throw-Ends message (some a) = Ends-pure a

  require_deployment-Ends : (id : String) → Ends t (require_deployment env id)
  unfolding require_deployment
  require_deployment-Ends id = Ends-bind _ _ (Ends-query env _) (or_throw-Ends _)

  record_state-Ends :
      (on_operation : Db → Db) (on_deployment : ℕ → Db → Db) (operation_id missing action : String)
      (after_json : Json)
      → Ends t (record_state env on_operation on_deployment operation_id missing action after_json)
  unfolding record_state
  record_state-Ends on_operation on_deployment operation_id missing action json =
      Ends-transaction env _ (
        Ends-bind _ _ (Ends-statement env _) λ _. Ends-bind _ _ (Ends-statement env _) λ _.
          Ends-bind _ _ (Ends-query env _) λ found.
            Ends-bind _ _ (or_throw-Ends missing found) (λ operation. Ends-statement env _))

  fail-Ends :
      (id operation_id code message : String) → Ends t (fail env id operation_id code message)
  unfolding fail
  fail-Ends id operation_id code message = record_state-Ends _ _ _ _ _ _

  attention-Ends :
      (id operation_id code message : String) → Ends t (attention env id operation_id code message)
  unfolding attention
  attention-Ends id operation_id code message = record_state-Ends _ _ _ _ _ _

  mark_verification_pending-Ends :
      (id operation_id code message : String)
      → Ends t (mark_verification_pending env id operation_id code message)
  unfolding mark_verification_pending
  mark_verification_pending-Ends id operation_id code message = record_state-Ends _ _ _ _ _ _

  persist_success-Ends :
      (id operation_id : String) (no_op : Bool) (current : ServiceDetailResponse)
      → Ends t (persist_success env id operation_id no_op current)
  unfolding persist_success
  persist_success-Ends id operation_id no_op current = Ends-transaction env _ (
      Ends-bind _ _ (Ends-statement env _) λ _. Ends-bind _ _ (Ends-statement env _) λ _.
        Ends-bind _ _ (Ends-query env _) λ found. Ends-bind _ _ (or_throw-Ends _ found) λ operation.
          Ends-bind _ _ (require_deployment-Ends id) (λ persisted. Ends-statement env _))

module _ (env : Env) (v : Verification) {t : ℕ} where
  with_placement-Ends :
      (service_id : String) (d : Decision) → Ends t (with_placement env service_id d)
  unfolding with_placement
  with_placement-Ends service_id success =
      Ends-on_result _ _ _ (Ends-ask env _) (λ p. Ends-pure _) (λ e n. Ends-pure _)
  with_placement-Ends service_id pending = Ends-pure _
  with_placement-Ends service_id rollback_paused = Ends-pure _
  with_placement-Ends service_id failed = Ends-pure _
  with_placement-Ends service_id external_conflict = Ends-pure _

  classify-Ends :
      (current : ServiceDetailResponse) → Ends t (classify_deployment_convergence env v current)
  unfolding classify_deployment_convergence
  classify-Ends current = with_placement-Ends _ _

  inspect-Ends : Ends t (inspect env v)
  unfolding inspect
  inspect-Ends = Ends-ask env _

  pass_success-Ends : (d : Decision) → Ends t (pass_success env d)
  unfolding pass_success
  pass_success-Ends success = Ends-pure _
  pass_success-Ends pending = Ends-raise _ (λ p. cc)
  pass_success-Ends rollback_paused = Ends-raise _ (λ p. cc)
  pass_success-Ends failed = Ends-raise _ (λ p. cc)
  pass_success-Ends external_conflict = Ends-raise _ (λ p. cc)

  convergence_guard-Ends : Ends t (convergence_guard env v)
  unfolding convergence_guard
  convergence_guard-Ends =
      Ends-on_result _ _ _ inspect-Ends
        (λ current. Ends-bind _ _ (classify-Ends current) pass_success-Ends)
        (λ e n. Ends-raise _ (λ p. cc))

  needs_attention-Ends : (code message : String) → Ends t (needs_attention env v code message)
  unfolding needs_attention
  needs_attention-Ends code message =
      Ends-bind _ _ (attention-Ends env v.deployment_id v.operation_id code message)
        (λ _. require_deployment-Ends env v.deployment_id)

  failed_with-Ends : (code message : String) → Ends t (failed_with env v code message)
  unfolding failed_with
  failed_with-Ends code message =
      Ends-bind _ _ (fail-Ends env v.deployment_id v.operation_id code message)
        (λ _. require_deployment-Ends env v.deployment_id)

module _ (env : Env) (v : Verification) (waits : 1 ≤ v.health.interval_ms) {t : ℕ}
    (again : Option String → M DeploymentRecord)
    (kept : (e : Option String) → Ends t (again e)) where
  settle_final-Ends :
      (current : ServiceDetailResponse) (d : Decision) → Ends t (settle_final env v current again d)
  unfolding settle_final
  settle_final-Ends current pending = kept none
  settle_final-Ends current rollback_paused = needs_attention-Ends env v _ _
  settle_final-Ends current failed = failed_with-Ends env v _ _
  settle_final-Ends current external_conflict = needs_attention-Ends env v _ _
  settle_final-Ends current success =
      Ends-bind _ _ (persist_success-Ends env v.deployment_id v.operation_id v.no_op current)
        (λ _. require_deployment-Ends env v.deployment_id)

  final_step-Ends : Ends t (final_step env v again)
  unfolding final_step
  final_step-Ends =
      Ends-on_result _ _ _ (inspect-Ends env v)
        (λ current. Ends-bind _ _ (classify-Ends env v current) (settle_final-Ends current))
        (λ e n. kept _)

  settle_health_error-Ends : (e : Failure) → Ends t (settle_health_error env v again e)
  unfolding settle_health_error
  settle_health_error-Ends (guarded (decided external_conflict) m) = needs_attention-Ends env v _ _
  settle_health_error-Ends (guarded (decided rollback_paused) m) = needs_attention-Ends env v _ _
  settle_health_error-Ends (guarded (decided failed) m) = failed_with-Ends env v _ _
  settle_health_error-Ends (guarded unavailable m) = kept _
  settle_health_error-Ends (guarded (decided pending) m) = kept _
  settle_health_error-Ends (guarded (decided success) m) = kept _
  settle_health_error-Ends (agent e) = failed_with-Ends env v _ _
  settle_health_error-Ends (conflict m) = failed_with-Ends env v _ _
  settle_health_error-Ends (bad_gateway m) = failed_with-Ends env v _ _
  settle_health_error-Ends (not_found m) = failed_with-Ends env v _ _
  settle_health_error-Ends (service_unavailable m) = failed_with-Ends env v _ _
  settle_health_error-Ends duplicate_dispatch = failed_with-Ends env v _ _
  settle_health_error-Ends (error m) = failed_with-Ends env v _ _
  settle_health_error-Ends (insufficient_capacity r) = failed_with-Ends env v _ _
  settle_health_error-Ends stuck = failed_with-Ends env v _ _

  health_step-Ends : Ends t (health_step env v again)
  unfolding health_step
  health_step-Ends =
      Ends-on_result _ _ _
        (Termination.verify-Ends env t v.health _ (λ t'. convergence_guard-Ends env v {t = t'})
          waits)
        (λ _. final_step-Ends) (λ e n. settle_health_error-Ends e)

  settle_first-Ends : (d : Decision) → Ends t (settle_first env v again d)
  unfolding settle_first
  settle_first-Ends rollback_paused = needs_attention-Ends env v _ _
  settle_first-Ends failed = failed_with-Ends env v _ _
  settle_first-Ends external_conflict = needs_attention-Ends env v _ _
  settle_first-Ends pending = kept none
  settle_first-Ends success = health_step-Ends

  verify_round-Ends : Ends t (verify_round env v again)
  unfolding verify_round
  verify_round-Ends =
      Ends-on_result _ _ _ (inspect-Ends env v)
        (λ current. Ends-bind _ _ (classify-Ends env v current) settle_first-Ends) (λ e n. kept _)

module _ (env : Env) (v : Verification) {t : ℕ} where
  verification_timed_out-Ends :
      (last_error : Option String) → Ends t (verification_timed_out env v last_error)
  unfolding verification_timed_out
  verification_timed_out-Ends last_error =
      Ends-if (Option.get_or last_error "" == "") _ _
        (λ _.
          Ends-bind _ _ (mark_verification_pending-Ends env v.deployment_id v.operation_id _ _)
            (λ _. require_deployment-Ends env v.deployment_id))
        (λ _. needs_attention-Ends env v _ _)

-- Each round that is left pays for one interval of the time that is left.
verify_loop-Ends :
    (env : Env) (v : Verification) (fuel t deadline : ℕ) (last_error : Option String)
    → 1 ≤ v.health.interval_ms
    → deadline ≤ t + verify_interval_ms * fuel
    → Ends t (verify_loop env fuel v deadline last_error)
unfolding verify_loop
verify_loop-Ends env v zero t deadline last_error waits enough = Ends-bind_date_now _ λ now later.
    Ends-if (ltb now deadline) _ _ (λ early. let h = ltb→lt now deadline early in ground (arith, h))
      (λ _. verification_timed_out-Ends env v last_error)
verify_loop-Ends env v (suc fuel) t deadline last_error waits enough =
    Ends-bind_date_now _ λ now later.
      Ends-if (ltb now deadline) _ _
        (λ _. verify_round-Ends env v waits _ λ e.
          Ends-bind_sleep verify_interval_ms (λ _. verify_loop env fuel v deadline e)
            (verify_loop-Ends env v fuel (now + verify_interval_ms) deadline e waits (omega arith)))
        (λ _. verification_timed_out-Ends env v last_error)

-- Whatever the agent, the server and the health endpoint answer and however long they take, the
-- verification of a deployment whose health check waits at least a millisecond between its probes
-- ends within its sixty rounds; and, in whatever state it starts, its health check with its guard ends
-- within the rounds of its own.
pub verify_and_complete-fueled :
    (env : Env) (v : Verification) (w w' : World)
    → 1 ≤ v.health.interval_ms
    → ((verify_and_complete env v w).0 ≢ err stuck)
      × ((Verifier.verify env v.health (convergence_guard env v) w').0 ≢ err stuck)
unfolding verify_and_complete
verify_and_complete-fueled env v w w' waits = (
  (Ends-bind_date_now {t = w.now} _ λ now later.
        verify_loop-Ends env v rounds now (now + verify_timeout_ms) none waits (omega arith)).fueled
      w (omega arith),
  (Termination.verify-Ends env w'.now v.health _ (λ t. convergence_guard-Ends env v {t = t})
        waits).fueled
      w' (omega arith),
)
