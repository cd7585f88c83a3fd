-- ===== src/Exec/Triple/Transactions.antt =====
-- What a transaction makes true of the tables where it returns.
use docklane.Prelude.{ℕ, ◌≡◌, refl, Option, none, some, some_inj, subst}
use docklane.Store.{Db}
use docklane.Exec.{
  Fault, undone, lost, Result, ok, err, World, Env, M, tick, insertion, statement, run_statement,
  settle, begin_transaction, commit, rollback,
}
use docklane.Exec.Uuid.{random_uuid}
use docklane.Exec.Execute.{guarded_transaction}
use docklane.Exec.Triple.{Outcome, Triple, Triple-bind, Triple-try, Triple-raise}

abbrev pub Any : World → Type 0
Any w = Unit

Any-Outcome :
    {A : Type 0} (R : A → World → Type 0) (E : World → Type 0) (r : Result A) (w : World)
    → Outcome R E r w
    → Outcome R Any r w
Any-Outcome R E (ok a) w p = p
Any-Outcome R E (err e) w p = tt

-- Nothing is asked of the state where it throws.
pub Triple-Any :
    {A : Type 0} {P E : World → Type 0} {R : A → World → Type 0} (m : M A)
    → Triple P m R E
    → Triple P m R Any
Triple-Any {E = E} {R = R} m k = record { at = λ w p. Any-Outcome R E (m w).0 (m w).1 (k.at w p) }

pub settled :
    (R : World → Type 0) (env : Env) (fault : Option Fault) (done failed : World)
    → R done
    → Outcome (λ _. R) Any (settle env fault done failed).0 (settle env fault done failed).1
settled R env none done failed r = r
settled R env (some (undone m)) done failed r = tt
settled R env (some (lost m)) done failed r = tt

inserted :
    (R : World → Type 0) (env : Env) (fault : Option Fault) (o : Option Db) (w : World)
    → ((db : Db) → o ≡ some db → R (record w { db = db }))
    → Outcome (λ _. R) Any (run_statement env fault o w).0 (run_statement env fault o w).1
inserted R env (some (undone m)) o w k = tt
inserted R env (some (lost m)) none w k = tt
inserted R env (some (lost m)) (some db) w k = tt
inserted R env none none w k = tt
inserted R env none (some db) w k = k db refl

pub rolled_back : (env : Env) → Triple Any (rollback env) (λ _. Any) Any
unfolding rollback
rolled_back env = record { at = λ w p. settled Any env (env.statement_fails w.calls) _ _ tt }

module _ (env : Env) (S : Db → Type 0) where
  -- The tables as the session sees them.
  abbrev pub Tables : World → Type 0
  Tables w = S w.db

  pub Triple-begin_transaction : Triple Tables (begin_transaction env) (λ _. Tables) Any
  unfolding begin_transaction
  Triple-begin_transaction = record {
    at = λ w p. settled Tables env (env.statement_fails w.calls) _ _ p;
  }

  -- What is committed is what the session sees.
  pub Triple-commit : Triple Tables (commit env) (λ _ w. (w.saved ≡ none) × S w.db) Any
  unfolding commit
  Triple-commit = record {
    at = λ w p.
        settled (λ w. (w.saved ≡ none) × S w.db) env (env.statement_fails w.calls) _ _ (refl, p);
  }

  pub Triple-random_uuid : Triple Tables (random_uuid env) (λ _. Tables) Any
  unfolding random_uuid
  Triple-random_uuid = record { at = λ w p. p }

  pub Triple-insertion :
      (T : Db → Type 0) (f : ℕ → Db → Option Db)
      → ((now : ℕ) (db db' : Db) → S db → f now db ≡ some db' → T db')
      → Triple Tables (insertion env f) (λ _ w. T w.db) Any
  unfolding insertion
  Triple-insertion T f k = record {
    at = λ w p.
        inserted (λ w. T w.db) env (env.statement_fails w.calls) (f w.now w.db) (tick env w)
          (λ db e. k w.now w.db db p e);
  }

  pub Triple-statement :
      (T : Db → Type 0) (f : ℕ → Db → Db)
      → ((now : ℕ) (db : Db) → S db → T (f now db))
      → Triple Tables (statement env f) (λ _ w. T w.db) Any
  unfolding statement insertion
  Triple-statement T f k = record {
    at = λ w p.
        inserted (λ w. T w.db) env (env.statement_fails w.calls) (some (f w.now w.db)) (tick env w)
          (λ db e. subst T (some_inj e) (k w.now w.db p));
  }

  pub Triple-guarded_transaction :
      {A : Type 0} {R : A → World → Type 0} (body : M A)
      → Triple Tables body R Any
      → Triple Tables (guarded_transaction env body) R Any
  unfolding guarded_transaction
  Triple-guarded_transaction body k =
      Triple-try _ _ (Triple-bind _ _ Triple-begin_transaction (λ _. k))
        λ e. Triple-bind {R = λ _. Any} _ _ (rolled_back env) (λ _. Triple-raise e (λ w p. tt))
