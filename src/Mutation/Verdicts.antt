-- ===== src/Mutation/Verdicts.antt =====
-- apps/api/src/operations/mutation.service.ts and mutation-verification.ts: what stands behind the
-- verdict of a verification.
use docklane.Prelude.{ℕ, zero, suc, ◌≡◌, refl, String, Option, none, some, ltb}
use docklane.Agent.{ServiceDetailResponse}
use docklane.Agent.Errors.{yields}
use docklane.Store.{OperationRecord}
use docklane.Exec.{World, Env, M, ok, error_message}
use docklane.Exec.Returns.{
  Returns, Returns-pure, Returns-raise, Returns-if, Returns-bind, Returns-on_result, Yields-ask,
}
use docklane.Mutation.Classify.{MutationSnapshotDecision, classify_mutation_snapshot}
use docklane.Mutation.Verify.{
  VerificationResult, success, failed, external_conflict, uncertain, settle_round, verify_loop,
  verify,
}

-- An inspection of the operation's service, as the agent answered it, that is classified so.
pub record Inspected (env : Env) (operation : OperationRecord) (current : ServiceDetailResponse)
    (decision : MutationSnapshotDecision) : Type 0 where
  pub call : ℕ
  pub answer : env.inspect_service call operation.service_id ≡ yields current
  pub classified : classify_mutation_snapshot operation current ≡ decision

-- What a verdict claims.
abbrev pub Justified : Env → OperationRecord → VerificationResult → Type 0
Justified env operation (success current) =
    Inspected env operation current MutationSnapshotDecision.success
Justified env operation (failed current message) =
    Inspected env operation current (MutationSnapshotDecision.failed message)
Justified env operation (external_conflict current message) =
    Inspected env operation current (MutationSnapshotDecision.external_conflict message)
Justified env operation (uncertain last message) = Unit

module _ (env : Env) (operation : OperationRecord) where
  settle_round-Returns :
      (d : MutationSnapshotDecision) (current : ServiceDetailResponse) (wait : M VerificationResult)
      → Inspected env operation current d
      → Returns (Justified env operation) wait
      → Returns (Justified env operation) (settle_round env d current wait)
  unfolding settle_round
  settle_round-Returns MutationSnapshotDecision.pending current wait i k = k
  settle_round-Returns MutationSnapshotDecision.success current wait i k = Returns-pure _ i
  settle_round-Returns (MutationSnapshotDecision.failed m) current wait i k = Returns-pure _ i
  settle_round-Returns (MutationSnapshotDecision.external_conflict m) current wait i k =
      Returns-pure _ i

  verify_loop-Returns :
      (fuel deadline : ℕ) (last : Option ServiceDetailResponse) (last_error : Option String)
      → Returns (Justified env operation) (verify_loop env fuel operation deadline last last_error)
  unfolding verify_loop
  verify_loop-Returns zero deadline last last_error =
      Returns-bind _ _
        λ now _. Returns-if (ltb now deadline) _ _ (λ _. Returns-raise _) (λ _. Returns-pure _ tt)
  verify_loop-Returns (suc fuel) deadline last last_error = Returns-bind _ _ λ now _.
      Returns-if (ltb now deadline) _ _
        (λ _.
          Returns-on_result _ _ _
            (λ current seen.
              settle_round-Returns (classify_mutation_snapshot operation current) _ _
                (let (n, answer) = Yields-ask env _ current seen in
                  record { call = n; answer = answer; classified = refl })
                (Returns-bind _ _ (λ _ _. verify_loop-Returns fuel deadline (some current) none)))
            (λ e.
              Returns-bind _ _
                (λ _ _. verify_loop-Returns fuel deadline last (some (error_message e)))))
        (λ _. Returns-pure _ tt)

-- A verification that returns a verdict, success, failure or external conflict, has it from an
-- answer of the agent for the operation's service, and the verdict is how the answer is classified.
pub verify-Justified :
    (env : Env) (operation : OperationRecord) (w : World) (v : VerificationResult)
    → (verify env operation w).0 ≡ ok v
    → Justified env operation v
unfolding verify
verify-Justified env operation =
    (Returns-bind _ _ (λ now _. verify_loop-Returns env operation _ _ none none)).at
