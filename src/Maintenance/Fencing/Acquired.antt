-- ===== src/Maintenance/Fencing/Acquired.antt =====
-- apps/api/src/clusters/maintenance-control-lease.ts: a lease that is acquired fences those before it.
use docklane.Prelude.{
  ℕ, suc, ◌+◌, ◌<◌, ◌≡◌, refl, ap, ◌∙◌, subst, String, String-eq, Bool, true, false, ◌==◌, Option,
  none, some, arith, find-update_where, find-append, find-true, find, if◌then◌else◌, leb, eq-true,
  Bool-cases, inl, inr,
}
use mathlib.Core.Option
use docklane.Store.{Db}
use docklane.Exec.{ok, World, Env}
use docklane.Exec.Atomic.{durable}
use docklane.Exec.Triple.{
  Triple, Triple-bind, Triple-given, Triple-query_now, Triple-execute, Triple-throw_if, Triple-pure,
}
use docklane.Exec.Triple.Transactions.{
  Any, Triple-Any, Triple-commit, Triple-random_uuid, Triple-insertion, Triple-guarded_transaction,
}
use docklane.Exec.Triple.Fixed.{returned}
use docklane.Maintenance.{ControlLease, MaintenanceLease}
use docklane.Maintenance.Statements.{find_lease, retake, insert_lease}
use docklane.Maintenance.Lease.{lease_row, take_over, acquire, owns}
use docklane.Maintenance.Writes.{ok_second, insert_lease-inv}
use docklane.Maintenance.Fencing.{token_of, fence, owned-token, Runs-fence}
use docklane.Maintenance.Keeps.Leasing.{row_read}
use docklane.Maintenance.Runs.{Runs}

no_row :
    (o : Option ControlLease) (now : ℕ)
    → ◌≡◌ {A = Option (ℕ × Bool)} none (Option.map (λ r. (r.fence_token, leb r.expires_at now)) o)
    → o ≡ none
no_row none now e = refl
no_row (some r) now e = cc

hit_token :
    (r y : ControlLease) (b : Bool)
    → b ≡ true
    → token_of (some (if b then y else r)) ≡ y.fence_token
hit_token r y true e = refl
hit_token r y false e = cc

new_token :
    (r : ControlLease) (b : Bool) → b ≡ true → token_of (if b then some r else none) ≡ r.fence_token
new_token r true e = refl
new_token r false e = cc

module _ (env : Env) (c : String) (db : Db) where
  -- The token is the one that follows, and the tables have it.
  abbrev Taken : ℕ → Db → Type 0
  Taken token d = (token ≡ suc (fence c db)) × (fence c d ≡ token)

  retaken :
      (h : String) (ttl now token : ℕ) (r : ControlLease) (n : ℕ) (d d' : Db)
      → d ≡ db
      → find_lease c d ≡ some r
      → r.fence_token ≡ token
      → retake c h (token + 1) ttl now d ≡ ok (n, d')
      → Taken (token + 1) d'
  unfolding retake find_lease
  retaken h ttl now token r n d d' same found e f =
      let held : (r.cluster_id == c) ≡ true =
        find-true (λ y. y.cluster_id == c) d.control_leases r found in
      let before : fence c db ≡ token =
        subst (λ x. token_of (find (λ y. y.cluster_id == c) x.control_leases) ≡ token) same
          (ap token_of found ∙ e) in
      (
        omega (arith, before),
        ap (λ x. token_of (find (λ y. y.cluster_id == c) x.control_leases)) (ok_second f)
            ∙ ap token_of (
                find-update_where (λ y. y.cluster_id == c) (λ y. y.cluster_id == c) _ (λ y. refl)
                  d.control_leases
                ∙ ap (Option.map _) found)
            ∙ hit_token r _ (r.cluster_id == c) held,
      )

  added :
      (h : String) (ttl now : ℕ) (d d' : Db)
      → d ≡ db
      → find_lease c d ≡ none
      → insert_lease c h ttl now d ≡ some d'
      → Taken 1 d'
  unfolding find_lease
  added h ttl now d d' same absent f =
      let before : fence c db ≡ 0 =
        subst (λ x. token_of (find (λ y. y.cluster_id == c) x.control_leases) ≡ 0) same
          (ap token_of absent) in
      (
        omega (arith, before),
        ap (λ x. token_of (find (λ y. y.cluster_id == c) x.control_leases))
              (insert_lease-inv c h ttl now d d' f).1
            ∙ ap token_of (find-append (λ y. y.cluster_id == c) d.control_leases _ absent)
            ∙ new_token _ (c == c) (eq-true c),
      )

  take_over-Taken :
      (h : String) (ttl : ℕ) (row : Option (ℕ × Bool))
      → Triple
          (λ w. (now : ℕ) × (row ≡ lease_row c now w.db) × (w.db ≡ db))
          (take_over env c h ttl row)
          (λ token w. Taken token w.db)
          Any
  unfolding take_over lease_row
  take_over-Taken h ttl none =
      Triple-bind {R = λ _ w. Taken 1 w.db} _ _
        (Triple-given _ (λ w p. (p.2, no_row _ p.0 p.1))
          (Triple-insertion env (λ d. (d ≡ db) × (find_lease c d ≡ none)) (Taken 1) _
            λ now d d' p e. added h ttl now d d' p.0 p.1 e))
        (λ _. Triple-pure 1 (λ w p. p))
  take_over-Taken h ttl (some (token, expired)) =
      Triple-bind _ _ (Triple-throw_if _ _ (λ w p. tt)) λ _.
        Triple-given _ (λ w p. p.1)
          (Triple-bind {R = λ _ w. Taken (token + 1) w.db} _ _
            (Triple-execute env _ (λ w p. tt) (λ w n d p f. tt)
              (λ w n d p f.
                let (r, found, e) = row_read (find_lease c w.db) p.0 token expired p.1 in
                retaken h ttl w.now token r n w.db d p.2 found e f))
            (λ n. Triple-pure _ (λ w p. p)))

-- A lease that was acquired is of its cluster, and its token is one more than the cluster's was; the
-- committed tables have it.
record Acquired (c : String) (db : Db) (y : MaintenanceLease) (w : World) : Type 0 where
  cluster : y.cluster_id ≡ c
  token : y.token ≡ suc (fence c db)
  kept : fence c w.db ≡ y.token
  committed : w.saved ≡ none

acquire-Acquired :
    (env : Env) (c : String) (ttl : ℕ) (db : Db)
    → Triple (λ w. w.db ≡ db) (acquire env c ttl) (Acquired c db) Any
unfolding acquire
acquire-Acquired env c ttl db =
    Triple-bind _ _ (Triple-Any _ (Triple-throw_if {E = λ w. w.db ≡ db} _ _ (λ w p. p))) λ _.
      Triple-given _ (λ w p. p.1)
        (Triple-bind _ _ (Triple-random_uuid env (λ d. d ≡ db)) λ h.
          Triple-guarded_transaction env (λ d. d ≡ db) _
            (Triple-bind _ _ (Triple-query_now env _ (λ w p. (p, tt))) λ row.
              Triple-bind _ _ (take_over-Taken env c db h ttl row) λ token.
                Triple-bind _ _ (Triple-commit env (Taken env c db token)) λ _.
                  Triple-pure _
                    λ w p. record { cluster = refl; token = p.1.0; kept = p.1.1; committed = p.0 }))

unowned :
    (x : MaintenanceLease) (now : ℕ) (d : Db)
    → x.token < fence x.cluster_id d
    → owns x now d ≡ false
unowned x now d h = elim (Bool-cases (owns x now d)) [
  | inl e ↦ absurd (omega (arith, owned-token x now d e))
  | inr e ↦ e
]

-- Where a lease passes the check of assertOwner, and another acquire of its cluster returns after it,
-- the lease passes no check again: not after any operations of the maintenance, and at no time.
pub acquire-fences :
    (env : Env) (x y : MaintenanceLease) (ttl before now : ℕ) (w w' : World)
    → owns x before w.db ≡ true
    → (acquire env x.cluster_id ttl w).0 ≡ ok y
    → Runs (acquire env x.cluster_id ttl w).1 w'
    → owns x now (durable w') ≡ false
acquire-fences env x y ttl before now w w' owned e r =
    let got =
      returned (Acquired x.cluster_id w.db) _ _ y e
        ((acquire-Acquired env x.cluster_id ttl w.db).at w refl) in
    unowned x now (durable w') (
      omega (
        arith,
        owned-token x before w.db owned,
        got.token,
        got.kept,
        Runs-fence x.cluster_id _ w' got.committed r,
      ))
