-- ===== src/Maintenance/Lease.antt =====
-- apps/api/src/clusters/maintenance-control-lease.ts: one orchestrator of the maintenance at a time.
use docklane.Prelude.{
  ℕ, ◌+◌, String, Bool, false, ◌&&◌, ◌||◌, not, Option, none, some, ◌!=◌, ℕ-eq, ltb, leb,
}
use mathlib.Core.Option
use docklane.Store.{Db}
use docklane.Exec.{conflict, M, Env, pure, throw_if, ◌>>=◌, ◌>>◌, insertion, commit}
use docklane.Exec.Uuid.{random_uuid}
use docklane.Exec.Execute.{execute, query_now, guarded_transaction}
use docklane.Maintenance.{MaintenanceLease}
use docklane.Maintenance.Statements.{find_lease, is_held_by, retake, insert_lease, expire}

-- The token of the row, and whether expires_at <= UTC_TIMESTAMP(6).
unfoldable pub lease_row : String → ℕ → Db → Option (ℕ × Bool)
unfolding find_lease
lease_row cluster_id now db =
    Option.map (λ r. (r.fence_token, leb r.expires_at now)) (find_lease cluster_id db)

-- WHERE cluster_id = ? AND holder_id = ? AND fence_token = ? AND expires_at > UTC_TIMESTAMP(6)
unfoldable pub owns : MaintenanceLease → ℕ → Db → Bool
unfolding find_lease
owns lease now db = elim (find_lease lease.cluster_id db) [
  | none ↦ false
  | some r ↦ is_held_by lease r && ltb now r.expires_at
]

module _ (env : Env) where
  unfoldable pub take_over : String → String → ℕ → Option (ℕ × Bool) → M ℕ
  take_over cluster_id holder_id ttl_seconds none = do
    insertion env (insert_lease cluster_id holder_id ttl_seconds)
    pure 1
  take_over cluster_id holder_id ttl_seconds (some (token, expired)) = do
    throw_if (not expired) (conflict "Another Control Plane holds the maintenance lease")
    execute env (retake cluster_id holder_id (token + 1) ttl_seconds)
    pure (token + 1)

  unfoldable pub acquire : String → ℕ → M MaintenanceLease
  acquire cluster_id ttl_seconds = do
    throw_if (ltb ttl_seconds 5 || ltb 300 ttl_seconds) (conflict "Invalid maintenance lease TTL")
    holder_id ← random_uuid env
    guarded_transaction env do
      row ← query_now env (lease_row cluster_id)
      token ← take_over cluster_id holder_id ttl_seconds row
      commit env
      pure (record { cluster_id = cluster_id; holder_id = holder_id; token = token })

  unfoldable pub assert_owner : MaintenanceLease → M (Unit {0})
  assert_owner lease = do
    valid ← query_now env (owns lease)
    throw_if (not valid) (conflict "Maintenance lease is expired or fenced")

  unfoldable pub release : MaintenanceLease → M (Unit {0})
  release lease = do
    affected ← execute env (expire lease)
    throw_if (affected != 1) (conflict "Maintenance lease ownership lost")
