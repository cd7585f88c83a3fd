-- ===== src/Exec/Keeps/Tables.antt =====
-- Invariants of the tables, in the session's view and in what a rollback would restore, and the
-- invariance of the list of dispatched mutations.
use docklane.Prelude.{ℕ, subst, [], ◌∷◌, ◌++◌, some_inj, ◌≡◌, refl, Option, none, some}
use docklane.Agent.Errors.{Answer}
use docklane.Store.{Db}
use docklane.Exec.{
  Fault, undone, lost, World, Env, M, sleep, ask, dispatch, tick, insertion, statement, query,
  begin_transaction, commit, rollback, transaction, Dispatch, run_statement, restore, settle,
  Requests, requests,
}
use docklane.Exec.Keeps.{Keeps, keeps_rules, Keeps-bind, Keeps-try, Keeps-pure, Keeps-raise}

-- `Q` holds of the dispatched mutations with the tables as the session sees them, and with the
-- tables as they were before an open transaction.
pub record Holds (Q : Requests → Db → Type 0) (w : World) : Type 0 where
  pub seen : Q (requests w) w.db
  pub kept : (d : Db) → w.saved ≡ some d → Q (requests w) d

module _ (env : Env) {Q : Requests → Db → Type 0} where
  pub Holds-sleep : (ms : ℕ) → Keeps (Holds Q) (sleep ms)
  unfolding sleep
  Holds-sleep ms = record { at = λ w h. record { seen = h.seen; kept = h.kept } }

  pub Holds-ask : {A : Type 0} (q : ℕ → Answer A) → Keeps (Holds Q) (ask env q)
  unfolding ask
  Holds-ask q = record { at = λ w h. record { seen = h.seen; kept = h.kept } }

  pub Holds-dispatch :
      (d : Dispatch)
      → ((l : Requests) (db : Db) → Q l db → Q (record l { services = l.services ++ d ∷ [] }) db)
      → Keeps (Holds Q) (dispatch env d)
  unfolding dispatch
  Holds-dispatch d more = record {
    at = λ w h. record {
      seen = more (requests w) w.db h.seen;
      kept = λ db e. more (requests w) db (h.kept db e);
    };
  }

  pub Holds-query : {A : Type 0} (f : Db → A) → Keeps (Holds Q) (query env f)
  unfolding query
  Holds-query f = record { at = λ w h. record { seen = h.seen; kept = h.kept } }

  run_statement-Holds :
      (fault : Option Fault) (o : Option Db) (w : World)
      → Holds Q w
      → ((d : Db) → o ≡ some d → Q (requests w) d)
      → Holds Q (run_statement env fault o w).1
  run_statement-Holds (some (undone m)) o w h q = h
  run_statement-Holds (some (lost m)) none w h q = h
  run_statement-Holds (some (lost m)) (some d) w h q = record { seen = q d refl; kept = h.kept }
  run_statement-Holds none none w h q = h
  run_statement-Holds none (some d) w h q = record { seen = q d refl; kept = h.kept }

  pub Holds-insertion :
      (f : ℕ → Db → Option Db)
      → ((now : ℕ) (l : Requests) (d d' : Db) → Q l d → f now d ≡ some d' → Q l d')
      → Keeps (Holds Q) (insertion env f)
  unfolding insertion
  Holds-insertion f keep = record {
    at = λ w h.
        run_statement-Holds (env.statement_fails w.calls) (f w.now w.db) (tick env w)
          (record { seen = h.seen; kept = h.kept })
          (λ d e. keep w.now (requests w) w.db d h.seen e);
  }

  pub Holds-statement :
      (f : ℕ → Db → Db)
      → ((now : ℕ) (l : Requests) (d : Db) → Q l d → Q l (f now d))
      → Keeps (Holds Q) (statement env f)
  unfolding statement
  Holds-statement f keep =
      Holds-insertion (λ now d. some (f now d))
        λ now l d d' q e. subst (Q l) (some_inj e) (keep now l d q)

  settle-Holds :
      (fault : Option Fault) (done failed : World)
      → Holds Q done
      → Holds Q failed
      → Holds Q (settle env fault done failed).1
  settle-Holds none done failed h k = h
  settle-Holds (some (undone m)) done failed h k = k
  settle-Holds (some (lost m)) done failed h k = h

  ticked : (w : World) → Holds Q w → Holds Q (tick env w)
  ticked w h = record { seen = h.seen; kept = h.kept }

  pub Holds-begin_transaction : Keeps (Holds Q) (begin_transaction env)
  unfolding begin_transaction
  Holds-begin_transaction = record {
    at = λ w h.
        settle-Holds (env.statement_fails w.calls) _ _
          (record { seen = h.seen; kept = λ d e. subst (Q (requests w)) (some_inj e) h.seen })
          (ticked w h);
  }

  pub Holds-commit : Keeps (Holds Q) (commit env)
  unfolding commit
  Holds-commit = record {
    at = λ w h.
        settle-Holds (env.statement_fails w.calls) _ _ (record { seen = h.seen; kept = λ d e. cc })
          (ticked w h);
  }

  restore-Holds :
      (o : Option Db) (w : World)
      → Holds Q w
      → ((d : Db) → o ≡ some d → Q (requests w) d)
      → Holds Q (restore env o w)
  restore-Holds none w h q = h
  restore-Holds (some d) w h q = record { seen = q d refl; kept = λ d' e. cc }

  pub Holds-rollback : Keeps (Holds Q) (rollback env)
  unfolding rollback
  Holds-rollback = record {
    at = λ w h.
        settle-Holds (env.statement_fails w.calls) _ _
          (restore-Holds w.saved (tick env w) (ticked w h) h.kept) (ticked w h);
  }

  pub Holds-transaction :
      {A : Type 0} (body : M A) → Keeps (Holds Q) body → Keeps (Holds Q) (transaction env body)
  unfolding transaction
  Holds-transaction body kb = Keeps-bind _ _ Holds-begin_transaction λ _.
      Keeps-try _ _ (Keeps-bind _ _ kb (λ a. Keeps-bind _ _ Holds-commit (λ _. Keeps-pure a)))
        (λ e. Keeps-bind _ _ Holds-rollback (λ _. Keeps-raise e))

pub ruleset holds_rules = (
  keeps_rules, Holds-sleep, Holds-ask, Holds-query, Holds-begin_transaction, Holds-commit,
  Holds-rollback, Holds-transaction,
)
