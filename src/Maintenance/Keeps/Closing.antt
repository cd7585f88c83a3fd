-- ===== src/Maintenance/Keeps/Closing.antt =====
-- apps/api/src/clusters/cluster-maintenance.repository.ts and
-- apps/api/src/clusters/maintenance-control-lease.ts: every method keeps what its statements keep.
use docklane.Prelude.{ℕ, ◌≡◌, refl, String, Bool, true, false, not, ◌||◌, List, Option, none, some}
use docklane.Prelude.Json.{Fields}
use docklane.Store.{Db}
use docklane.Exec.{Env, M, Requests, pure, ◌>>◌, commit}
use docklane.Exec.Keeps.{
  Keeps, Keeps-bind, Keeps-bind_of, Keeps-try, Keeps-throw_if, Keeps-pure, Keeps-raise,
}
use docklane.Exec.Keeps.Tables.{
  Holds, Holds-query, Holds-insertion, Holds-statement, Holds-commit, Holds-rollback,
}
use docklane.Exec.Returns.{Yields-throw_if}
use docklane.Exec.Execute.{execute, Holds-execute, Holds-guarded_transaction}
use docklane.Maintenance.{
  MaintenanceState, opened, closing, closed, RecoveryOrigin, from_closed, from_reconciling,
  MaintenanceRecord, MaintenanceLease,
}
use docklane.Maintenance.Statements.{set_state}
use docklane.Maintenance.Repository.{
  allowed, origin, recovered, valid_record, require_record, write_event, insert_missing,
  initialize_open, compare_and_set_state, unless_changed, request_closing, require_lease,
  require_evidence, commit_closed, recovery_evidence, commit_recovery_transition,
}
use docklane.Maintenance.Keeps.{Stable}
use docklane.Maintenance.Keeps.Leasing.{random_uuid-Keeps, assert_owner-Keeps}

both-left : (a b : Bool) → (not a || b) ≡ false → a ≡ true
both-left true b h = refl
both-left false b h = cc

module _ (env : Env) {Q : Requests → Db → Type 0} (s : Stable Q) where
  set_state-Keeps :
      (c : String) (from : MaintenanceState) (g : ℕ) (to : MaintenanceState) (a r : String)
      → allowed from to ≡ true
      → Keeps (Holds Q) (execute env (set_state c from g to a r))
  set_state-Keeps c from g to a r ok_ =
      Holds-execute env _ λ now l db n db' q e. s.advances c from g to a r now l db n db' ok_ q e

  write_event-Keeps : (a c x : String) (f : Fields) → Keeps (Holds Q) (write_event env a c x f)
  unfolding write_event
  write_event-Keeps a c x f =
      Keeps-bind _ _ (random_uuid-Keeps env)
        λ id. Holds-statement env _ (λ now l db q. s.audits _ l db q)

  valid_record-Keeps : (o : Option MaintenanceRecord) → Keeps (Holds Q) (valid_record env o)
  unfolding valid_record
  valid_record-Keeps none = Keeps-raise _
  valid_record-Keeps (some r) = Keeps-bind _ _ (Keeps-throw_if _ _) (λ _. Keeps-pure r)

  require_record-Keeps : (c : String) → Keeps (Holds Q) (require_record env c)
  unfolding require_record
  require_record-Keeps c =
      Keeps-bind _ _ (Keeps-try _ _ (Holds-query env _) (λ e. Keeps-raise _)) valid_record-Keeps

  insert_missing-Keeps :
      (c a r : String) (o : Option MaintenanceRecord) → Keeps (Holds Q) (insert_missing env c a r o)
  unfolding insert_missing
  insert_missing-Keeps c a r (some x) = Keeps-pure tt
  insert_missing-Keeps c a r none =
      Keeps-bind _ _ (Holds-insertion env _ (λ now l d d' q e. s.opens c a r now l d d' q e))
        (λ _. write_event-Keeps _ _ _ _)

  pub initialize_open-Keeps : (c a r : String) → Keeps (Holds Q) (initialize_open env c a r)
  unfolding initialize_open
  initialize_open-Keeps c a r = Keeps-bind _ _ (Keeps-throw_if _ _) λ _.
      Keeps-bind _ _
        (Holds-guarded_transaction env _ (
          Keeps-bind _ _ (Holds-query env _) λ rows. Keeps-bind _ _ (Keeps-throw_if _ _) λ _.
            Keeps-bind _ _ (Holds-query env _)
              λ o. Keeps-bind _ _ (insert_missing-Keeps c a r o) (λ _. Holds-commit env)))
        (λ _. require_record-Keeps c)

  pub compare_and_set_state-Keeps :
      (c : String) (from : MaintenanceState) (g : ℕ) (to : MaintenanceState) (a r : String)
      → Keeps (Holds Q) (compare_and_set_state env c from g to a r)
  unfolding compare_and_set_state
  compare_and_set_state-Keeps c from g to a r = Keeps-bind_of _ _ (Keeps-throw_if _ _) λ x y.
      Keeps-bind _ _ (set_state-Keeps c from g to a r (both-left _ _ (Yields-throw_if _ _ x y)))
        (λ n. Keeps-pure _)

  unless_changed-Keeps :
      (b : Bool) (m : M Bool) → Keeps (Holds Q) m → Keeps (Holds Q) (unless_changed env b m)
  unfolding unless_changed
  unless_changed-Keeps true m k = Keeps-bind _ _ (Holds-rollback env) (λ _. Keeps-pure false)
  unless_changed-Keeps false m k = k

  finished-Keeps :
      (a c x : String) (f : Fields)
      → Keeps (Holds Q) (do write_event env a c x f; commit env; pure true)
  finished-Keeps a c x f =
      Keeps-bind _ _ (write_event-Keeps a c x f)
        λ _. Keeps-bind _ _ (Holds-commit env) (λ _. Keeps-pure true)

  pub request_closing-Keeps :
      (c : String) (g : ℕ) (a r : String) → Keeps (Holds Q) (request_closing env c g a r)
  unfolding request_closing
  request_closing-Keeps c g a r = Keeps-bind _ _ (Keeps-throw_if _ _) λ _.
      Holds-guarded_transaction env _ (
        Keeps-bind _ _ (set_state-Keeps c opened g closing a r refl)
          λ n. unless_changed-Keeps _ _ (finished-Keeps _ _ _ _))

  require_lease-Keeps :
      (c : String) (o : Option MaintenanceLease) → Keeps (Holds Q) (require_lease env c o)
  unfolding require_lease
  require_lease-Keeps c none = Keeps-raise _
  require_lease-Keeps c (some x) = Keeps-bind _ _ (Keeps-throw_if _ _) (λ _. Keeps-pure x)

  require_evidence-Keeps :
      (c : String) (g : ℕ) (ids : List String) (u m : String)
      → Keeps (Holds Q) (require_evidence env c g ids u m)
  unfolding require_evidence
  require_evidence-Keeps c g ids u m = Keeps-bind _ _ (Holds-query env _) λ p.
      Keeps-bind _ _ (Keeps-throw_if _ _)
        λ _. Keeps-bind _ _ (Holds-query env _) (λ acks. Keeps-throw_if _ _)

  pub commit_closed-Keeps :
      (c : String) (g : ℕ) (a r : String) (ids : List String) (o : Option MaintenanceLease)
      → Keeps (Holds Q) (commit_closed env c g a r ids o)
  unfolding commit_closed
  commit_closed-Keeps c g a r ids o = Keeps-bind _ _ (Keeps-throw_if _ _) λ _.
      Keeps-bind _ _ (require_lease-Keeps c o) λ lease. Holds-guarded_transaction env _ (
        Keeps-bind _ _ (assert_owner-Keeps env lease) λ _. Keeps-bind _ _ (Holds-query env _) λ row.
          unless_changed-Keeps _ _ (
            Keeps-bind _ _ (require_evidence-Keeps _ _ _ _ _) λ _.
              Keeps-bind _ _ (set_state-Keeps c closing g closed a r refl)
                λ n. Keeps-bind _ _ (Keeps-throw_if _ _) (λ _. finished-Keeps _ _ _ _)))

  recovery_evidence-Keeps :
      (f : RecoveryOrigin) (c : String) (g : ℕ) (ids : List String)
      → Keeps (Holds Q) (recovery_evidence env f c g ids)
  unfolding recovery_evidence
  recovery_evidence-Keeps from_closed c g ids = Keeps-pure tt
  recovery_evidence-Keeps from_reconciling c g ids = require_evidence-Keeps c g ids _ _

  allowed-recovered : (f : RecoveryOrigin) → allowed (origin f) (recovered f) ≡ true
  allowed-recovered from_closed = refl
  allowed-recovered from_reconciling = refl

  pub commit_recovery_transition-Keeps :
      (c : String) (g : ℕ) (a r : String) (f : RecoveryOrigin) (x : MaintenanceLease)
      (ids : List String)
      → Keeps (Holds Q) (commit_recovery_transition env c g a r f x ids)
  unfolding commit_recovery_transition
  commit_recovery_transition-Keeps c g a r f x ids = Keeps-bind _ _ (Keeps-throw_if _ _) λ _.
      Keeps-bind _ _ (Keeps-throw_if _ _) λ _. Holds-guarded_transaction env _ (
        Keeps-bind _ _ (assert_owner-Keeps env x) λ _. Keeps-bind _ _ (Holds-query env _) λ row.
          unless_changed-Keeps _ _ (
            Keeps-bind _ _ (recovery_evidence-Keeps f c g _) λ _.
              Keeps-bind _ _
                (set_state-Keeps c (origin f) g (recovered f) a r (allowed-recovered f))
                λ n. Keeps-bind _ _ (Keeps-throw_if _ _) (λ _. finished-Keeps _ _ _ _)))
