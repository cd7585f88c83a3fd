-- ===== src/Maintenance/Live.antt =====
-- apps/api/src/clusters/maintenance-control-lease.ts: a lease can be had.
use docklane.Prelude.{
  ℕ, suc, ◌+◌, ◌≤◌, ◌≡◌, refl, ap, sym, ◌∙◌, String, String-eq, true, false, ◌||◌, none, some,
  arith, leb, ltb, Option-cases, inl, inr,
}
use docklane.Exec.{ok, World, Env, pure, throw_if, try, ◌>>=◌, insertion, commit, begin_transaction}
use docklane.Exec.Uuid.{random_uuid}
use docklane.Exec.Execute.{execute, query_now, guarded_transaction}
use docklane.Maintenance.{ControlLease}
use docklane.Maintenance.Statements.{find_lease, retake, insert_lease}
use docklane.Maintenance.Fencing.{fence, token_of}
use docklane.Maintenance.Lease.{lease_row, take_over, acquire}

live_ttl : (ttl : ℕ) → 5 ≤ ttl → ttl ≤ 300 → (ltb ttl 5 || ltb 300 ttl) ≡ false
live_ttl ttl h k = ground arith

acquire-absent :
    (env : Env) (c : String) (ttl : ℕ) (w : World)
    → (ltb ttl 5 || ltb 300 ttl) ≡ false
    → ((n : ℕ) → env.statement_fails n ≡ none)
    → find_lease c w.db ≡ none
    → (acquire env c ttl w).0
      ≡ ok (record { cluster_id = c; holder_id = env.uuid w.calls; token = 1 })
unfolding acquire throw_if random_uuid guarded_transaction begin_transaction query_now lease_row
    take_over insertion insert_lease commit pure try ◌>>=◌
acquire-absent env c ttl w t h f =
    rw
      (
        t,
        h (suc w.calls),
        h (suc (suc w.calls)),
        f,
        h (suc (suc (suc w.calls))),
        f,
        h (suc (suc (suc (suc w.calls)))),
      )
      refl

acquire-expired :
    (env : Env) (c : String) (ttl : ℕ) (w : World) (r : ControlLease)
    → (ltb ttl 5 || ltb 300 ttl) ≡ false
    → ((n : ℕ) → env.statement_fails n ≡ none)
    → find_lease c w.db ≡ some r
    → r.expires_at ≤ w.now
    → (acquire env c ttl w).0
      ≡ ok (record { cluster_id = c; holder_id = env.uuid w.calls; token = r.fence_token + 1 })
unfolding acquire throw_if random_uuid guarded_transaction begin_transaction query_now lease_row
    take_over execute retake commit pure try ◌>>=◌
acquire-expired env c ttl w r t h f e =
    let over : leb r.expires_at (w.now + env.latency w.calls + env.latency (suc w.calls)) ≡ true =
      ground arith in
    rw
      (
        t,
        h (suc w.calls),
        h (suc (suc w.calls)),
        f,
        over,
        h (suc (suc (suc w.calls))),
        h (suc (suc (suc (suc w.calls)))),
      )
      refl

-- Where the time limit is from 5 to 300 seconds, no lease of the cluster lasts beyond the present, and
-- the server fails no statement, acquire returns a lease of the cluster, with the token that follows
-- the cluster's.
pub acquire-live :
    (env : Env) (c : String) (ttl : ℕ) (w : World)
    → 5 ≤ ttl
    → ttl ≤ 300
    → ((n : ℕ) → env.statement_fails n ≡ none)
    → ((r : ControlLease) → find_lease c w.db ≡ some r → r.expires_at ≤ w.now)
    → (acquire env c ttl w).0
      ≡ ok (record { cluster_id = c; holder_id = env.uuid w.calls; token = suc (fence c w.db) })
acquire-live env c ttl w low high h over = elim (Option-cases (find_lease c w.db)) [
  | inl e ↦
      acquire-absent env c ttl w (live_ttl ttl low high) h e
      ∙ ap (λ n. ok (record { cluster_id = c; holder_id = env.uuid w.calls; token = n }))
          (ap (λ o. suc (token_of o)) (sym e))
  | inr (r, e) ↦
      acquire-expired env c ttl w r (live_ttl ttl low high) h e (over r e)
      ∙ ap (λ n. ok (record { cluster_id = c; holder_id = env.uuid w.calls; token = n }))
          (let at : fence c w.db ≡ r.fence_token = ap token_of e in omega (arith, at))
]
