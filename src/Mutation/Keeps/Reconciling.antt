-- ===== src/Mutation/Keeps/Reconciling.antt =====
-- apps/api/src/operations/mutation.service.ts: verify, verifyAndCompleteLocked and reconcileLocked
-- keep every stable invariant. They make no request that changes the cluster.
use docklane.Prelude.{ℕ, zero, suc, String, Option, none, ltb, ◌==◌, ◌&&◌, ◌||◌, ℕ-eq, String-eq}
use docklane.Prelude.Json.{Json}
use docklane.Agent.{ServiceDetailResponse}
use docklane.Store.{OperationRecord, Db}
use docklane.Exec.{Env, M, ◌>>=◌, Requests}
use docklane.Exec.Keeps.{
  Keeps, Keeps-bind, Keeps-pure, Keeps-raise, Keeps-if, Keeps-on_result, Keeps-date_now,
}
use docklane.Exec.Keeps.Tables.{Holds, Holds-ask, Holds-sleep, Holds-transaction}
use docklane.Mutation.Persist.{mark_needs_attention, require_operation}
use docklane.Mutation.Classify.{MutationSnapshotDecision, classify_mutation_snapshot}
use docklane.Mutation.Verify.{
  VerificationResult, success, failed, external_conflict, uncertain, settle_round, verify_loop,
  verify, record_outcome, verify_and_complete_locked, resume_verification, reconcile_observed,
  reconcile_locked, is_verifying,
}
use docklane.Mutation.Keeps.{
  Stable, mark_success-Kept, mark_failed-Kept, mark_needs_attention-Kept, Holds-update_and_event,
  mark_verifying-Keeps, mark_needs_attention-Keeps, audit-Keeps, require_operation-Keeps,
}

module _ (env : Env) {Q : Requests → Db → Type 0} where
  settle_round-Keeps :
      (d : MutationSnapshotDecision) (current : ServiceDetailResponse) (wait : M VerificationResult)
      → Keeps (Holds Q) wait
      → Keeps (Holds Q) (settle_round env d current wait)
  unfolding settle_round
  settle_round-Keeps MutationSnapshotDecision.pending current wait k = k
  settle_round-Keeps MutationSnapshotDecision.success current wait k = Keeps-pure _
  settle_round-Keeps (MutationSnapshotDecision.failed m) current wait k = Keeps-pure _
  settle_round-Keeps (MutationSnapshotDecision.external_conflict m) current wait k = Keeps-pure _

  verify_loop-Keeps :
      (fuel : ℕ) (operation : OperationRecord) (deadline : ℕ) (last : Option ServiceDetailResponse)
      (last_error : Option String)
      → Keeps (Holds Q) (verify_loop env fuel operation deadline last last_error)
  unfolding verify_loop
  verify_loop-Keeps zero operation deadline last last_error =
      Keeps-bind _ _ Keeps-date_now
        λ now. Keeps-if (ltb now deadline) _ _ (λ _. Keeps-raise _) (λ _. Keeps-pure _)
  verify_loop-Keeps (suc fuel) operation deadline last last_error =
      Keeps-bind _ _ Keeps-date_now λ now.
        Keeps-if (ltb now deadline) _ _
          (λ _.
            Keeps-on_result _ _ _ (Holds-ask env _)
              (λ current. settle_round-Keeps (classify_mutation_snapshot operation current) _ _ (
                Keeps-bind _ _ (Holds-sleep env _)
                  (λ _. verify_loop-Keeps fuel operation deadline _ _)))
              (λ e.
                Keeps-bind _ _ (Holds-sleep env _)
                  (λ _. verify_loop-Keeps fuel operation deadline _ _)))
          (λ _. Keeps-pure _)

  verify-Keeps : (operation : OperationRecord) → Keeps (Holds Q) (verify env operation)
  unfolding verify
  verify-Keeps operation =
      Keeps-bind _ _ Keeps-date_now (λ now. verify_loop-Keeps _ operation _ none none)

module _ (env : Env) {Q : Requests → Db → Type 0} (stable : Stable Q) where
  record_outcome-Keeps :
      (operation : OperationRecord) (v : VerificationResult)
      → Keeps (Holds Q) (record_outcome env operation v)
  unfolding record_outcome
  record_outcome-Keeps operation (success current) =
      Holds-update_and_event env stable _ _ (mark_success-Kept stable operation.id _)
  record_outcome-Keeps operation (failed current m) =
      Holds-update_and_event env stable _ _ (mark_failed-Kept stable operation.id _ _)
  record_outcome-Keeps operation (external_conflict current m) =
      Holds-update_and_event env stable _ _ (mark_needs_attention-Kept stable operation.id _ _)
  record_outcome-Keeps operation (uncertain last m) =
      Holds-update_and_event env stable _ _ (mark_needs_attention-Kept stable operation.id _ _)

  pub verify_and_complete_locked-Keeps :
      (operation : OperationRecord) → Keeps (Holds Q) (verify_and_complete_locked env operation)
  unfolding verify_and_complete_locked
  verify_and_complete_locked-Keeps operation = Keeps-bind _ _ (verify-Keeps env operation) λ v.
      Keeps-bind _ _ (Holds-transaction env _ (record_outcome-Keeps operation v))
        (λ _. require_operation-Keeps env operation.id)

  resume_verification-Keeps :
      (operation : OperationRecord) (current : ServiceDetailResponse)
      → Keeps (Holds Q) (resume_verification env operation current)
  unfolding resume_verification
  resume_verification-Keeps operation current =
      Keeps-bind _ _
        (Keeps-if (is_verifying operation.status) _ _ (λ _. Keeps-pure _)
          (λ _.
            Keeps-bind _ _ (mark_verifying-Keeps env stable operation.id _)
              (λ _. audit-Keeps env stable operation _ _)))
        (λ _.
          Keeps-bind _ _ (require_operation-Keeps env operation.id)
            verify_and_complete_locked-Keeps)

  attention-Keeps :
      (operation : OperationRecord) (code message : String) (current : Option Json)
      → Keeps (Holds Q) (
          mark_needs_attention env operation code message current >>= λ _.
          require_operation env operation.id)
  attention-Keeps operation code message current =
      Keeps-bind _ _ (mark_needs_attention-Keeps env stable operation code message current)
        (λ _. require_operation-Keeps env operation.id)

  reconcile_observed-Keeps :
      (operation : OperationRecord) (current : ServiceDetailResponse)
      → Keeps (Holds Q) (reconcile_observed env operation current)
  unfolding reconcile_observed
  reconcile_observed-Keeps operation current =
      Keeps-if (current.service.spec_hash == operation.target_spec_hash) _ _
        (λ _. resume_verification-Keeps operation current)
        λ _.
          Keeps-if
            (current.service.version == operation.expected_version
              && current.service.spec_hash == operation.before_spec_hash)
            _ _ (λ _. attention-Keeps operation _ _ _) (λ _. attention-Keeps operation _ _ _)

  pub reconcile_locked-Keeps :
      (operation : OperationRecord) → Keeps (Holds Q) (reconcile_locked env operation)
  unfolding reconcile_locked
  reconcile_locked-Keeps operation =
      Keeps-if (operation.before_spec_hash == "" || operation.target_spec_hash == "") _ _
        (λ _. attention-Keeps operation _ _ _)
        λ _.
          Keeps-on_result _ _ _ (Holds-ask env _) (reconcile_observed-Keeps operation)
            (λ e. attention-Keeps operation _ _ _)
