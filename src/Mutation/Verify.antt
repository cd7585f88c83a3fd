-- ===== src/Mutation/Verify.antt =====
-- apps/api/src/operations/mutation.service.ts: verify, verifyAndCompleteLocked, reconcileLocked.
-- The loop runs on fuel; each round waits `verify_interval_ms`, so that `rounds` rounds are enough.
use Prim.Native.String.{◌++◌ as concat}
use docklane.Prelude.{
  ℕ, zero, suc, ◌+◌, String, Bool, true, false, ◌&&◌, ◌||◌, Option, none, some, ◌==◌, ℕ-eq,
  String-eq, ltb, if◌then◌else◌,
}
use mathlib.Core.Option
use docklane.Agent.{ServiceDetailResponse}
use docklane.Agent.Payload.{service_json}
use docklane.Prelude.Json.{num, str, obj, end, field}
use docklane.Store.{OperationStatus, OperationRecord}
use docklane.Store.Operations
use docklane.Exec.{
  on_result, error_message, stuck, M, Env, pure, raise, ◌>>=◌, ◌>>◌, date_now, sleep, ask,
  statement, transaction,
}
use docklane.Mutation.Classify.{MutationSnapshotDecision, classify_mutation_snapshot}
use docklane.Mutation.Persist.{
  event_of, mark_verifying, mark_needs_attention, audit, require_operation,
}

abbrev pub verify_timeout_ms : ℕ
verify_timeout_ms = 30000

abbrev pub verify_interval_ms : ℕ
verify_interval_ms = 500

-- verify_timeout_ms / verify_interval_ms
abbrev pub rounds : ℕ
rounds = 60

pub data VerificationResult : Type 0 where
  success : ServiceDetailResponse → VerificationResult
  failed external_conflict : ServiceDetailResponse → String → VerificationResult
  uncertain : Option ServiceDetailResponse → String → VerificationResult

-- `lastError ? … : …`: no error, or one with an empty message.
abbrev pub timed_out : Option ServiceDetailResponse → Option String → VerificationResult
timed_out last last_error = uncertain last (
    if Option.get_or last_error "" == ""
    then "Service mutation was accepted but convergence was not confirmed"
    else concat "Verification timed out after Agent errors: " (Option.get_or last_error ""))

abbrev pub is_verifying : OperationStatus → Bool
is_verifying OperationStatus.verifying = true
is_verifying _ = false

module _ (env : Env) where
  -- What a round does with its decision: `wait` sleeps and goes on with the loop.
  unfoldable pub settle_round :
      MutationSnapshotDecision → ServiceDetailResponse → M VerificationResult → M VerificationResult
  settle_round MutationSnapshotDecision.pending current wait = wait
  settle_round MutationSnapshotDecision.success current wait = pure (success current)
  settle_round (MutationSnapshotDecision.failed message) current wait =
      pure (failed current message)
  settle_round (MutationSnapshotDecision.external_conflict message) current wait =
      pure (external_conflict current message)

  unfoldable pub verify_loop :
      ℕ
      → OperationRecord
      → (deadline : ℕ) → Option ServiceDetailResponse
      → Option String
      → M VerificationResult
  verify_loop zero operation deadline last last_error = do
    now ← date_now
    if ltb now deadline then raise stuck else pure (timed_out last last_error)
  verify_loop (suc fuel) operation deadline last last_error = do
    now ← date_now
    if ltb now deadline
        then (do
          on_result (ask env (λ n. env.inspect_service n operation.service_id))
              (λ current. settle_round (classify_mutation_snapshot operation current) current (do
                sleep verify_interval_ms
                verify_loop fuel operation deadline (some current) none))
              (λ e. do
                sleep verify_interval_ms
                verify_loop fuel operation deadline last (some (error_message e))))
        else pure (timed_out last last_error)

  unfoldable pub verify : OperationRecord → M VerificationResult
  verify operation = do
    now ← date_now
    verify_loop rounds operation (now + verify_timeout_ms) none none

  -- The writes of each outcome, within the transaction.
  unfoldable pub record_outcome : OperationRecord → VerificationResult → M (Unit {0})
  record_outcome operation (success current) = do
    statement env (λ _. Operations.mark_success operation.id current.service.version)
    statement env (λ _.
        Operations.audit
          (event_of operation "MUTATION_SUCCEEDED" (some (service_json current.service))))
  record_outcome operation (failed current message) = do
    statement env (λ _. Operations.mark_failed operation.id "CONVERGENCE_FAILED" message)
    statement env (λ _.
        Operations.audit
          (event_of operation "MUTATION_CONVERGENCE_FAILED" (some (service_json current.service))))
  record_outcome operation (external_conflict current message) = do
    statement env
        (λ _. Operations.mark_needs_attention operation.id "EXTERNAL_SERVICE_CONFLICT" message)
    statement env (λ _.
        Operations.audit
          (event_of operation "MUTATION_NEEDS_ATTENTION" (some (service_json current.service))))
  record_outcome operation (uncertain last message) = do
    statement env
        (λ _. Operations.mark_needs_attention operation.id "VERIFICATION_UNCERTAIN" message)
    statement env (λ _. Operations.audit (
        event_of operation "MUTATION_NEEDS_ATTENTION"
          (Option.map (λ current. service_json current.service) last)))

  unfoldable pub verify_and_complete_locked : OperationRecord → M OperationRecord
  verify_and_complete_locked operation = do
    verification ← verify operation
    transaction env (record_outcome operation verification)
    require_operation env operation.id

  -- The target is observed: the operation goes on to its verification.
  unfoldable pub resume_verification : OperationRecord → ServiceDetailResponse → M OperationRecord
  resume_verification operation current = do
    if is_verifying operation.status then pure tt else (do
      mark_verifying env operation.id current.service.version
      audit env operation "MUTATION_RECONCILED" (
          some (
            obj (
              field "version" (num current.service.version)
                (field "specHash" (str current.service.spec_hash) end)))))
    refreshed ← require_operation env operation.id
    verify_and_complete_locked refreshed

  unfoldable pub reconcile_observed : OperationRecord → ServiceDetailResponse → M OperationRecord
  reconcile_observed operation current =
      if current.service.spec_hash == operation.target_spec_hash
      then resume_verification operation current
      else if current.service.version == operation.expected_version
          && current.service.spec_hash == operation.before_spec_hash
      then (do
        mark_needs_attention env operation "MUTATION_NOT_OBSERVED"
            "Mutation outcome is uncertain and the target spec was not observed" none
        require_operation env operation.id)
      else (do
        mark_needs_attention env operation "EXTERNAL_SERVICE_CONFLICT"
            "Service spec changed outside the recorded Docklane mutation"
            (some (service_json current.service))
        require_operation env operation.id)

  unfoldable pub reconcile_locked : OperationRecord → M OperationRecord
  reconcile_locked operation =
      if operation.before_spec_hash == "" || operation.target_spec_hash == ""
      then (do
        mark_needs_attention env operation "LEGACY_OPERATION_MISSING_TARGET"
            "Operation predates service fingerprint tracking and cannot be reconciled automatically"
            none
        require_operation env operation.id)
      else (do
        on_result (ask env (λ n. env.inspect_service n operation.service_id))
            (λ current. reconcile_observed operation current)
            (λ e. (do
              mark_needs_attention env operation "RECONCILIATION_UNAVAILABLE"
                  (concat "Unable to inspect service during reconciliation: " (error_message e))
                  none
              require_operation env operation.id)))
