-- ===== src/Maintenance/Evidence/Committed.antt =====
-- apps/api/src/clusters/cluster-maintenance.repository.ts: the two changes of state that ask for the
-- evidence.
use docklane.Prelude.{
  ℕ, suc, ◌≡◌, refl, sym, subst, String, String-eq, ℕ-eq, Bool, true, false, ◌!=◌, Option, none,
  some, List, arith, eq_iff,
}
use docklane.Store.{Db}
use docklane.Prelude.Json.{Fields}
use docklane.Exec.{
  Result, ok, err, World, Env, M, Failure, pure, throw_if, ◌>>=◌, ◌>>◌, query, commit, rollback,
}
use docklane.Exec.Execute.{execute}
use docklane.Maintenance.Lease.{assert_owner}
use mathlib.Core.Option
use docklane.Exec.Atomic.{durable}
use docklane.Exec.Triple.{
  Outcome, Triple, Triple-bind, Triple-fact, Triple-pure, Triple-raise, Triple-weaken,
}
use docklane.Exec.Triple.Transactions.{Any}
use docklane.Exec.Triple.Fixed.{At, Triple-guard, Triple-read, Triple-guarded-At, returned}
use docklane.Lock.{sort}
use docklane.Maintenance.{
  MaintenanceState, opened, closing, closed, reconciling, from_reconciling, MaintenanceLease,
}
use docklane.Maintenance.Statements.{find_state, set_state}
use docklane.Maintenance.Cycle.{point}
use docklane.Maintenance.Repository.{
  require_lease, unless_changed, commit_closed, recovery_evidence, commit_recovery_transition,
  not_at, require_evidence, write_event,
}
use docklane.Maintenance.Evidence.Barriers.{find_barriers-IsBlocked}
use docklane.Maintenance.Evidence.Unresolved.{none-InFlight, none-Lasting, none-HasNotEnded}
use docklane.Maintenance.Evidence.{
  Evidence, at_point, set_state-committed, assert_owner-Live, require_evidence-Resolved,
}

-- Where it returned true, the evidence was there, and the committed state is the next one.
pub record Committed (c : String) (s t : MaintenanceState) (g : ℕ) (ids : List String)
    (lease : MaintenanceLease) (start : ℕ) (db : Db) (w : World) : Type 0 where
  pub evidence : Evidence c s g ids lease start db
  pub next : point c w.db ≡ some (t, suc g)
  pub committed : w.saved ≡ none

abbrev pub WhenTrue : (World → Type 0) → Bool → World → Type 0
WhenTrue K b w = b ≡ true → K w

module _ (env : Env) (start : ℕ) (db : Db) {K : World → Type 0} where
  unless_changed-Triple :
      (b : Bool) (m : M Bool)
      → (b ≡ false → Triple (At start db) m (WhenTrue K) Any)
      → Triple (At start db) (unless_changed env b m) (WhenTrue K) Any
  unfolding unless_changed
  unless_changed-Triple true m k =
      Triple-bind {R = λ _. Any} _ _ (record { at = λ w p. always (rollback env w).0 _ })
        (λ _. Triple-pure false (λ w p h. cc))
    where
      always : {A : Type 0} (r : Result A) (w : World) → Outcome (λ _. Any) Any r w
      always (ok a) w = tt
      always (err e) w = tt
  unless_changed-Triple false m k = k refl

module _ (env : Env) (start : ℕ) (db : Db) (c : String) (g : ℕ) (ids : List String)
    (lease : MaintenanceLease) where
  -- The transaction of both methods, after their checks of the arguments.
  confirmed :
      (s t : MaintenanceState) (a x y u m : String) (e : Failure) (f : Fields)
      → lease.cluster_id ≡ c
      → Triple
          (At start db)
          (do
            assert_owner env lease
            state ← query env (find_state c)
            unless_changed env (not_at s g state) do
              require_evidence env c g (sort ids) u m
              affected ← execute env (set_state c s g t a x)
              throw_if (affected != 1) e
              write_event env a c y f
              commit env
              pure true)
          (WhenTrue (Committed c s t g ids lease start db))
          Any
  unfolding find_state
  confirmed s t a x y u m e f mine = Triple-bind _ _ (assert_owner-Live env c start db lease) λ _.
      Triple-fact _ λ live. Triple-read env start db (find_state c) _ (
        unless_changed-Triple env start db _ _ λ same.
          let h = at_point s g (find_state c db) same in
          Triple-bind _ _ (require_evidence-Resolved env c start db g (sort ids) u m) λ _.
            Triple-fact _ λ found.
              Triple-weaken _
                (λ b w p _. record {
                  evidence = record {
                    state = h;
                    no_admission = none-Lasting c db found.0;
                    no_operation = (none-HasNotEnded c db found.1).0;
                    no_node_operation = (none-HasNotEnded c db found.1).1;
                    no_dispatch = none-InFlight c db found.2;
                    acknowledged = found.3;
                    blocked = find_barriers-IsBlocked c g (sort ids) db found.3;
                    cluster = mine;
                    live = live;
                  };
                  next = p.1;
                  committed = p.0;
                })
                (set_state-committed env c start db s g t a x y e f h))

same_cluster : (a b : String) → (a != b) ≡ false → a ≡ b
same_cluster a b h = (eq_iff a b).0 (ground arith)

require_lease-mine :
    (env : Env) (start : ℕ) (db : Db) (c : String) (held : Option MaintenanceLease)
    → Triple
        (At start db)
        (require_lease env c held)
        (λ lease w. ((held ≡ some lease) × (lease.cluster_id ≡ c)) × At start db w)
        Any
unfolding require_lease
require_lease-mine env start db c none = Triple-raise _ (λ w p. tt)
require_lease-mine env start db c (some lease) =
    Triple-guard start db _ _ _
      λ mine. Triple-pure lease (λ w p. ((refl, same_cluster _ c mine), p))

pub commit_closed-Committed :
    (env : Env) (c : String) (g : ℕ) (a x : String) (ids : List String)
    (held : Option MaintenanceLease) (start : ℕ) (db : Db)
    → Triple
        (At start db)
        (commit_closed env c g a x ids held)
        (WhenTrue (λ w.
          (lease : MaintenanceLease) × (held ≡ some lease)
          × Committed c closing closed g ids lease start db w))
        Any
unfolding commit_closed
commit_closed-Committed env c g a x ids held start db = Triple-guard start db _ _ _ λ fit.
    Triple-bind _ _ (require_lease-mine env start db c held) λ lease. Triple-fact _ λ mine.
      Triple-weaken _ (λ b w p e. (lease, mine.0, p e))
        (Triple-guarded-At env start db _
          (confirmed env start db c g ids lease closing closed a x _ _ _ _ _ mine.1))

commit_recovery_transition-Committed :
    (env : Env) (c : String) (g : ℕ) (a x : String) (lease : MaintenanceLease) (ids : List String)
    (start : ℕ) (db : Db)
    → Triple
        (At start db)
        (commit_recovery_transition env c g a x from_reconciling lease ids)
        (WhenTrue (Committed c reconciling opened g ids lease start db))
        Any
unfolding commit_recovery_transition recovery_evidence
commit_recovery_transition-Committed env c g a x lease ids start db =
    Triple-guard start db _ _ _ λ fit. Triple-guard start db _ _ _ λ roster.
      Triple-guarded-At env start db _ (
        confirmed env start db c g ids lease reconciling opened a x _ _ _ _ _
          (same_cluster _ c (ground arith)))

Committed-point :
    {c : String} {s t : MaintenanceState} {g : ℕ} {ids : List String} {lease : MaintenanceLease}
    {start : ℕ} {db : Db} (w : World)
    → Committed c s t g ids lease start db w
    → point c (durable w) ≡ some (t, suc g)
Committed-point {c} {t} {g} w k =
    subst (λ o. point c (Option.get_or o w.db) ≡ some (t, suc g)) (sym k.committed) k.next

-- Where commitClosed returns true, the caller held a lease of the cluster, and the row of the
-- cluster named its holder and token and had not expired at a time from the call on. The cluster
-- was CLOSING at the generation; no admission of it was without evidence that resolves it, no
-- dispatch PREPARED, SENDING or UNCERTAIN without it, and each operation on a service or a node was
-- SUCCESS or FAILED; the barriers of its agents were those of the managers expected, in order, each
-- ACKNOWLEDGED at the generation, and no other. The committed state is CLOSED at the next
-- generation.
pub commit_closed-Evidence :
    (env : Env) (c : String) (g : ℕ) (a x : String) (ids : List String)
    (held : Option MaintenanceLease) (w : World)
    → (commit_closed env c g a x ids held w).0 ≡ ok true
    → (lease : MaintenanceLease) × (held ≡ some lease)
      × Evidence c closing g ids lease w.now w.db
      × (point c (durable (commit_closed env c g a x ids held w).1) ≡ some (closed, suc g))
commit_closed-Evidence env c g a x ids held w h =
    let (lease, mine, k) =
      returned (WhenTrue _) _ _ true h
        ((commit_closed-Committed env c g a x ids held w.now w.db).at w (omega arith, refl)) refl in
    (lease, mine, k.evidence, Committed-point _ k)

-- Where commitRecoveryTransition from RECONCILING returns true, its lease was of the cluster, and
-- the row of the cluster named its holder and token and had not expired at a time from the call on.
-- The cluster was RECONCILING at the generation; no admission of it was without evidence that
-- resolves it, no dispatch PREPARED, SENDING or UNCERTAIN without it, and each operation on a
-- service or a node was SUCCESS or FAILED; the barriers of its agents were those of the managers
-- expected, in order, each ACKNOWLEDGED at the generation, and no other. The committed state is
-- OPEN at the next generation.
pub commit_recovery_transition-Evidence :
    (env : Env) (c : String) (g : ℕ) (a x : String) (lease : MaintenanceLease) (ids : List String)
    (w : World)
    → (commit_recovery_transition env c g a x from_reconciling lease ids w).0 ≡ ok true
    → Evidence c reconciling g ids lease w.now w.db
      × (point c (durable (commit_recovery_transition env c g a x from_reconciling lease ids w).1)
          ≡ some (opened, suc g))
commit_recovery_transition-Evidence env c g a x lease ids w h =
    let k =
      returned (WhenTrue _) _ _ true h
        ((commit_recovery_transition-Committed env c g a x lease ids w.now w.db).at w
          (omega arith, refl))
        refl in
    (k.evidence, Committed-point _ k)
