-- ===== src/Mutation/Repeats.antt =====
-- apps/api/src/operations/mutation.service.ts: a scale whose operation exists and has ended.
use docklane.Prelude.{
  ◌≡◌, ◌↔◌, ◌⊎◌, refl, ◌∙◌, String, true, false, none, some, ℕ-eq, String-eq, Option-eq, nat_eq_iff,
  option_eq_iff, eq_iff, arith, Bool-cases, inl, inr,
}
use docklane.Store.{OperationType, OperationRecord, is_final}
use docklane.Store.Operations.{find_operation}
use docklane.Exec.{ok, err, Failure, conflict, World, Env, query, tick, pure, throw_if, ◌>>=◌}
use docklane.Mutation.Persist.{operation_type_eq, Expected, request_differs, assert_idempotent}
use docklane.Mutation.Service.{Principal, ScaleServiceRequest, repeat, repeat_or, scale_locked}

-- The row is that of this very request.
pub record SameRequest (row : OperationRecord) (cluster_id service_id : String)
    (input : ScaleServiceRequest) (principal : Principal) : Type 0 where
  pub type : row.type ≡ OperationType.scale
  pub cluster : row.cluster_id ≡ cluster_id
  pub service : row.service_id ≡ service_id
  pub actor : row.actor_id ≡ principal.actor_id
  pub expected_version : row.expected_version ≡ input.expected_version
  pub replicas : row.target_replicas ≡ some input.replicas

abbrev expected : String → String → ScaleServiceRequest → Principal → Expected
expected cluster_id service_id input principal = record {
  type = OperationType.scale;
  cluster_id = cluster_id;
  service_id = service_id;
  actor_id = principal.actor_id;
  expected_version = input.expected_version;
  target_replicas = some input.replicas;
}

type_eq_iff :
    (t : OperationType)
    → (operation_type_eq t OperationType.scale ≡ true) ↔ (t ≡ OperationType.scale)
type_eq_iff OperationType.scale = (λ h. refl, λ h. refl)
type_eq_iff OperationType.restart = (λ h. cc, λ h. cc)
type_eq_iff OperationType.deploy = (λ h. cc, λ h. cc)
type_eq_iff OperationType.rollback = (λ h. cc, λ h. cc)

module _ (row : OperationRecord) (cluster_id service_id : String) (input : ScaleServiceRequest)
    (principal : Principal) where
  request_differs_iff :
      (request_differs row (expected cluster_id service_id input principal) ≡ false)
      ↔ SameRequest row cluster_id service_id input principal
  request_differs_iff = (
    λ h. record {
      type = ground (arith, type_eq_iff row.type);
      cluster = ground (arith, eq_iff row.cluster_id cluster_id);
      service = ground (arith, eq_iff row.service_id service_id);
      actor = ground (arith, eq_iff row.actor_id principal.actor_id);
      expected_version = ground (arith, nat_eq_iff row.expected_version input.expected_version);
      replicas = ground (arith, option_eq_iff row.target_replicas (some input.replicas));
    },
    λ s. ground (
      arith,
      type_eq_iff row.type,
      eq_iff row.cluster_id cluster_id,
      eq_iff row.service_id service_id,
      eq_iff row.actor_id principal.actor_id,
      nat_eq_iff row.expected_version input.expected_version,
      option_eq_iff row.target_replicas (some input.replicas),
      s.type,
      s.cluster,
      s.service,
      s.actor,
      s.expected_version,
      s.replicas,
    ),
  )

abbrev pub refused : Failure
refused = conflict "operationId was already used for a different mutation"

repeat-same :
    (env : Env) (row : OperationRecord) (e : Expected) (w : World)
    → request_differs row e ≡ false
    → is_final row.status ≡ true
    → repeat env row e w ≡ (ok row, w)
unfolding repeat assert_idempotent throw_if ◌>>=◌ pure
repeat-same env row e w same final = rw same (rw final refl)

repeat-different :
    (env : Env) (row : OperationRecord) (e : Expected) (w : World)
    → request_differs row e ≡ true
    → repeat env row e w ≡ (err refused, w)
unfolding repeat assert_idempotent throw_if ◌>>=◌
repeat-different env row e w differs = rw differs refl

scale_locked-found :
    (env : Env) (cluster_id service_id : String) (input : ScaleServiceRequest)
    (principal : Principal) (w : World) (row : OperationRecord)
    → env.statement_fails w.calls ≡ none
    → find_operation input.operation_id w.db ≡ some row
    → scale_locked env cluster_id service_id input principal w
      ≡ repeat env row (expected cluster_id service_id input principal) (tick env w)
unfolding scale_locked repeat_or query ◌>>=◌
scale_locked-found env cluster_id service_id input principal w row healthy found =
    rw healthy (rw found refl)

-- The answer to a scale of an operation that has ended, where the lookup of its row does not fail:
-- nothing changes but the clock; the row is returned if it is that of the very request, and if it is
-- not, the request is refused as a conflict.
pub scale_locked-repeated :
    (env : Env) (cluster_id service_id : String) (input : ScaleServiceRequest)
    (principal : Principal) (w : World) (row : OperationRecord)
    → env.statement_fails w.calls ≡ none
    → find_operation input.operation_id w.db ≡ some row
    → is_final row.status ≡ true
    → (SameRequest row cluster_id service_id input principal
        × (scale_locked env cluster_id service_id input principal w ≡ (ok row, tick env w)))
      ⊎ (¬ SameRequest row cluster_id service_id input principal
          × (scale_locked env cluster_id service_id input principal w ≡ (err refused, tick env w)))
scale_locked-repeated env cluster_id service_id input principal w row healthy found final =
    let e = expected cluster_id service_id input principal in
    let iff = request_differs_iff row cluster_id service_id input principal in
    let first = scale_locked-found env cluster_id service_id input principal w row healthy found in
    elim (Bool-cases (request_differs row e)) [
      | inl differs ↦
          inr
            (λ s. let same = iff.1 s in cc, first ∙ repeat-different env row e (tick env w) differs)
      | inr same ↦ inl (iff.0 same, first ∙ repeat-same env row e (tick env w) same final)
    ]
