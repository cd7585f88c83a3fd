-- ===== src/Exec/Execute.antt =====
-- A statement that answers with the number of the rows that it affected.
use docklane.Prelude.{ℕ, ◌≡◌, refl, Option, none, some}
use docklane.Store.{Db}
use docklane.Exec.{
  Fault, undone, lost, Result, ok, err, error, World, Env, M, tick, Requests, requests, ◌>>◌, try,
  raise, begin_transaction, rollback, answer_query,
}
use docklane.Exec.Keeps.{Keeps, Keeps-bind, Keeps-try, Keeps-raise}
use docklane.Exec.Keeps.Tables.{Holds, Holds-begin_transaction, Holds-rollback}

abbrev pub run_update : Option Fault → Result (ℕ × Db) → World → Result ℕ × World
run_update (some (undone m)) _ w = (err (error m), w)
run_update (some (lost m)) (err e) w = (err (error m), w)
run_update (some (lost m)) (ok (n, db)) w = (err (error m), record w { db = db })
run_update none (err e) w = (err e, w)
run_update none (ok (n, db)) w = (ok n, record w { db = db })

module _ (env : Env) where
  -- The server refuses the statement, or runs it.
  unfoldable pub execute : (ℕ → Db → Result (ℕ × Db)) → M ℕ
  execute f w = run_update (env.statement_fails w.calls) (f w.now w.db) (tick env w)

  -- A query that compares with the time of the server.
  unfoldable pub query_now : {A : Type 0} → (ℕ → Db → A) → M A
  query_now f w = (answer_query env (env.statement_fails w.calls) (f w.now w.db), tick env w)

  -- try { beginTransaction; … } catch (error) { rollback; throw error }, which commits by itself.
  unfoldable pub guarded_transaction : {A : Type 0} → M A → M A
  guarded_transaction body = try (begin_transaction env >> body) (λ e. rollback env >> raise e)

module _ (env : Env) {Q : Requests → Db → Type 0} where
  pub Holds-query_now : {A : Type 0} (f : ℕ → Db → A) → Keeps (Holds Q) (query_now env f)
  unfolding query_now
  Holds-query_now f = record { at = λ w h. record { seen = h.seen; kept = h.kept } }

  run_update-Holds :
      (fault : Option Fault) (r : Result (ℕ × Db)) (w : World)
      → Holds Q w
      → ((n : ℕ) (d : Db) → r ≡ ok (n, d) → Q (requests w) d)
      → Holds Q (run_update fault r w).1
  run_update-Holds (some (undone m)) r w h q = h
  run_update-Holds (some (lost m)) (err e) w h q = h
  run_update-Holds (some (lost m)) (ok (n, d)) w h q = record { seen = q n d refl; kept = h.kept }
  run_update-Holds none (err e) w h q = h
  run_update-Holds none (ok (n, d)) w h q = record { seen = q n d refl; kept = h.kept }

  pub Holds-execute :
      (f : ℕ → Db → Result (ℕ × Db))
      → ((now : ℕ) (l : Requests) (d : Db) (n : ℕ) (d' : Db)
          → Q l d
          → f now d ≡ ok (n, d')
          → Q l d')
      → Keeps (Holds Q) (execute env f)
  unfolding execute
  Holds-execute f keep = record {
    at = λ w h.
        run_update-Holds (env.statement_fails w.calls) (f w.now w.db) (tick env w)
          (record { seen = h.seen; kept = h.kept })
          (λ n d e. keep w.now (requests w) w.db n d h.seen e);
  }

  pub Holds-guarded_transaction :
      {A : Type 0} (body : M A)
      → Keeps (Holds Q) body
      → Keeps (Holds Q) (guarded_transaction env body)
  unfolding guarded_transaction
  Holds-guarded_transaction body k =
      Keeps-try _ _ (Keeps-bind _ _ (Holds-begin_transaction env) (λ _. k))
        λ e. Keeps-bind _ _ (Holds-rollback env) (λ _. Keeps-raise e)
