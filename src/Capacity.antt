-- ===== src/Capacity.antt =====
-- apps/api/src/capacity/capacity.service.ts. The warning that it logs is not modelled.
use docklane.Prelude.{String, some, ◌==◌, ◌!=◌, ℕ-eq, String-eq, Option-eq, if◌then◌else◌}
use docklane.Agent.{CapacityStatus, CapacityCheckRequest, CapacityCheckResponse}
use docklane.Agent.Errors.{status_code}
use docklane.Exec.{
  Failure, agent, conflict, bad_gateway, not_found, insufficient_capacity, M, Env, pure, raise, try,
  throw_if, ◌>>=◌, ◌>>◌, ask,
}

unfoldable pub capacity_error : Failure → Failure
capacity_error (agent e) =
    if status_code e == some 409
    then conflict "Service changed before capacity check"
    else bad_gateway "Agent capacity check failed"
capacity_error _ = bad_gateway "Agent capacity check failed"

-- The result, or the error that a result of insufficient capacity becomes.
unfoldable pub accept_capacity : CapacityStatus → CapacityCheckResponse → M CapacityCheckResponse
accept_capacity CapacityStatus.insufficient result = raise (insufficient_capacity result)
accept_capacity CapacityStatus.sufficient result = pure result
accept_capacity CapacityStatus.unknown result = pure result

module _ (env : Env) where
  unfoldable pub call_agent : String → CapacityCheckRequest → M CapacityCheckResponse
  call_agent service_id input =
      try (ask env (λ n. env.check_service_capacity n service_id input))
        (λ e. raise (capacity_error e))

  unfoldable pub check : String → String → CapacityCheckRequest → M CapacityCheckResponse
  check cluster_id service_id input = do
    throw_if (cluster_id != env.cluster_id) (not_found "Cluster not found")
    call_agent service_id input

  unfoldable pub assert_available : String → CapacityCheckRequest → M CapacityCheckResponse
  assert_available service_id input = do
    result ← call_agent service_id input
    accept_capacity result.status result
