-- ===== src/Mutation/Termination.antt =====
-- apps/api/src/operations/mutation.service.ts: the verification loop ends within its rounds.
use docklane.Prelude.{
  ℕ, zero, suc, ◌+◌, ◌*◌, ◌≤◌, ◌≢◌, ltb, ltb→lt, arith, String, Option, none, some,
}
use docklane.Agent.{ServiceDetailResponse}
use docklane.Store.{OperationRecord}
use docklane.Exec.{World, Env, M, err, stuck, error_message}
use docklane.Exec.Ends.{
  Ends, Ends-pure, Ends-raise, Ends-if, Ends-bind, Ends-bind_date_now, Ends-bind_sleep,
  Ends-on_result, Ends-ask, Ends-query, Ends-statement, Ends-transaction,
}
use docklane.Mutation.Classify.{MutationSnapshotDecision, classify_mutation_snapshot}
use docklane.Mutation.Persist.{or_disappeared, require_operation}
use docklane.Mutation.Verify.{
  VerificationResult, success, failed, external_conflict, uncertain, settle_round, verify_loop,
  verify, record_outcome, verify_and_complete_locked, verify_interval_ms, verify_timeout_ms, rounds,
}

module _ (env : Env) {t : ℕ} where
  settle_round-Ends :
      (d : MutationSnapshotDecision) (current : ServiceDetailResponse) (wait : M VerificationResult)
      → Ends t wait
      → Ends t (settle_round env d current wait)
  unfolding settle_round
  settle_round-Ends MutationSnapshotDecision.pending current wait k = k
  settle_round-Ends MutationSnapshotDecision.success current wait k = Ends-pure _
  settle_round-Ends (MutationSnapshotDecision.failed m) current wait k = Ends-pure _
  settle_round-Ends (MutationSnapshotDecision.external_conflict m) current wait k = Ends-pure _

  or_disappeared-Ends : (found : Option OperationRecord) → Ends t (or_disappeared env found)
  unfolding or_disappeared
  or_disappeared-Ends none = Ends-raise _ (λ e. cc)
  or_disappeared-Ends (some r) = Ends-pure r

  require_operation-Ends : (id : String) → Ends t (require_operation env id)
  unfolding require_operation
  require_operation-Ends id = Ends-bind _ _ (Ends-query env _) or_disappeared-Ends

  record_outcome-Ends :
      (operation : OperationRecord) (v : VerificationResult)
      → Ends t (record_outcome env operation v)
  unfolding record_outcome
  record_outcome-Ends operation (success current) =
      Ends-bind _ _ (Ends-statement env _) (λ _. Ends-statement env _)
  record_outcome-Ends operation (failed current m) =
      Ends-bind _ _ (Ends-statement env _) (λ _. Ends-statement env _)
  record_outcome-Ends operation (external_conflict current m) =
      Ends-bind _ _ (Ends-statement env _) (λ _. Ends-statement env _)
  record_outcome-Ends operation (uncertain last m) =
      Ends-bind _ _ (Ends-statement env _) (λ _. Ends-statement env _)

-- Each round that is left pays for one interval of the time that is left.
verify_loop-Ends :
    (env : Env) (fuel : ℕ) (t : ℕ) (operation : OperationRecord) (deadline : ℕ)
    (last : Option ServiceDetailResponse) (last_error : Option String)
    → deadline ≤ t + verify_interval_ms * fuel
    → Ends t (verify_loop env fuel operation deadline last last_error)
unfolding verify_loop
verify_loop-Ends env zero t operation deadline last last_error enough =
    Ends-bind_date_now _ λ now later.
      Ends-if (ltb now deadline) _ _
        (λ early. let h = ltb→lt now deadline early in ground (arith, h)) (λ _. Ends-pure _)
verify_loop-Ends env (suc fuel) t operation deadline last last_error enough =
    Ends-bind_date_now _ λ now later.
      let again = λ (last' : Option ServiceDetailResponse) (e' : Option String).
        Ends-bind_sleep verify_interval_ms (λ _. verify_loop env fuel operation deadline last' e')
          (verify_loop-Ends env fuel (now + verify_interval_ms) operation deadline last' e'
            (omega arith)) in
      Ends-if (ltb now deadline) _ _
        (λ _.
          Ends-on_result _ _ _ (Ends-ask env _)
            (λ current.
              settle_round-Ends env (classify_mutation_snapshot operation current) _ _
                (again (some current) none))
            (λ e n. again last (some (error_message e))))
        (λ _. Ends-pure _)

verify_and_complete_locked-Ends :
    (env : Env) (t : ℕ) (operation : OperationRecord)
    → Ends t (verify_and_complete_locked env operation)
unfolding verify_and_complete_locked verify
verify_and_complete_locked-Ends env t operation =
    Ends-bind _ _
      (Ends-bind_date_now _ λ now later.
        verify_loop-Ends env rounds now operation (now + verify_timeout_ms) none none (omega arith))
      (λ v.
        Ends-bind _ _ (Ends-transaction env _ (record_outcome-Ends env operation v))
          (λ _. require_operation-Ends env operation.id))

-- Sixty rounds are enough: whatever the agent and the server answer and however long they take, the
-- verification of an operation never runs out of fuel before its deadline of thirty seconds.
pub verify_and_complete_locked-fueled :
    (env : Env) (operation : OperationRecord) (w : World)
    → (verify_and_complete_locked env operation w).0 ≢ err stuck
verify_and_complete_locked-fueled env operation w =
    (verify_and_complete_locked-Ends env w.now operation).fueled w (omega arith)
