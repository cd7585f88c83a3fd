-- ===== src/Maintenance/Unsent.antt =====
-- apps/api/src/clusters/maintenance-dispatch-journal.ts: the statements around the send make no
-- request, and the one before it fails where the cluster is not OPEN at the generation.
use docklane.Prelude.{
  ℕ, ◌≡◌, refl, sym, ◌∙◌, subst, String, String-eq, Bool, true, false, ◌&&◌, ◌==◌, ◌!=◌, ℕ-eq,
  Bool-cases, inl, inr, Option, none, some, List, [], ◌∷◌, matched, arith,
}
use docklane.Store.{Db}
use docklane.Exec.{
  Fault, undone, lost, Result, ok, err, Failure, World, Env, Requests, requests, pure, raise, try,
  ◌>>◌, tick,
}
use docklane.Exec.Uuid.{random_uuid}
use docklane.Exec.Keeps.{
  Keeps, Keeps-bind, Keeps-try, Keeps-throw_if, Keeps-pure, Keeps-raise, Keeps-if,
}
use docklane.Exec.Execute.{execute, run_update}
use docklane.Exec.Triple.{
  Triple, Triple-bind, Triple-fact, Triple-execute, Triple-throw_if, Triple-try, Triple-raise,
  Triple-weaken,
}
use docklane.Maintenance.{DispatchPhase}
use docklane.Maintenance.Statements.{find_state}
use docklane.Maintenance.Writes.{ok_second, insert_dispatch-inv}
use docklane.Maintenance.Journal.{
  AdmissionScope, Lineage, link, link_admission, prepare, begin_send, promote, is_prepared, open_at,
  transition, refuse_send, is_duplicate,
}

updated :
    (K : Requests → Db → Type 0) (fault : Option Fault) (r : Result (ℕ × Db)) (w : World)
    → K (requests w) w.db
    → ((n : ℕ) (db : Db) → r ≡ ok (n, db) → K (requests w) db)
    → K (requests (run_update fault r w).1) (run_update fault r w).1.db
updated K (some (undone m)) r w k f = k
updated K (some (lost m)) (err e) w k f = k
updated K (some (lost m)) (ok (n, db)) w k f = f n db refl
updated K none (err e) w k f = k
updated K none (ok (n, db)) w k f = f n db refl

module _ (env : Env) (K : Requests → Db → Type 0) where
  -- The requests that were made, and the tables as the session sees them.
  abbrev pub Both : World → Type 0
  Both w = K (requests w) w.db

  execute-Both :
      (f : ℕ → Db → Result (ℕ × Db))
      → ((now : ℕ) (l : Requests) (db : Db) (n : ℕ) (db' : Db)
          → K l db
          → f now db ≡ ok (n, db')
          → K l db')
      → Keeps Both (execute env f)
  unfolding execute
  execute-Both f k = record {
    at = λ w p.
        updated K (env.statement_fails w.calls) (f w.now w.db) (tick env w) p
          (λ n db e. k w.now (requests w) w.db n db p e);
  }

  random_uuid-Both : Keeps Both (random_uuid env)
  unfolding random_uuid
  random_uuid-Both = record { at = λ w p. p }

-- A row that was updated fits the condition.
matched-none :
    {A : Type 0} (p : A → Bool) (b : Bool) (rows : List A)
    → b ≡ false
    → matched (λ x. p x && b) rows ≡ 0
unfolding matched
matched-none p b [] e = refl
matched-none p b (x ∷ rows) e = ground (arith, matched-none p b rows e)

module _ (env : Env) (l1 : Requests) where
  abbrev pub Made : Requests → Db → Type 0
  Made l db = l ≡ l1

  pub transition-Made :
      (id : String) (from to : DispatchPhase) → Keeps (Both env Made) (transition env id from to)
  unfolding transition
  transition-Made id from to = Keeps-bind _ _ (Keeps-throw_if _ _) λ _.
      Keeps-bind _ _ (execute-Both env Made _ (λ now l db n db' p e. p)) (λ n. Keeps-throw_if _ _)

  pub recorded-Made :
      {A : Type 0} (id : String) (from to : DispatchPhase) (e : Failure)
      → Keeps {A = A} (Both env Made) (do try (transition env id from to) (λ _. pure tt); raise e)
  recorded-Made id from to e =
      Keeps-bind _ _ (Keeps-try _ _ (transition-Made id from to) (λ _. Keeps-pure tt))
        (λ _. Keeps-raise e)

  pub refuse_send-Made :
      {A : Type 0} (o : Option String) (e : Failure)
      → Keeps {A = A} (Both env Made) (refuse_send env o e)
  unfolding refuse_send
  refuse_send-Made none e = Keeps-raise _
  refuse_send-Made (some id) e =
      Keeps-if (is_duplicate e) _ _ (λ _. Keeps-raise e) (λ _. recorded-Made id _ _ _)

module _ (env : Env) (x : Lineage) (l0 : Requests) (o : Bool) where
  -- No request was made yet, and `o` says whether the cluster is OPEN at the generation.
  abbrev pub Ready : Requests → Db → Type 0
  Ready l db = (l ≡ l0) × (open_at x.cluster_id x.generation db ≡ o)

  link-Ready :
      (scope : Option AdmissionScope) (c i : String) → Keeps (Both env Ready) (link env scope c i)
  unfolding link link_admission open_at find_state
  link-Ready none c i = Keeps-pure tt
  link-Ready (some scope) c i =
      Keeps-if (scope.cluster_id == c) _ _
        (λ _.
          Keeps-bind _ _
            (execute-Both env Ready _ (λ now l db n db' p e.
              (p.0, subst (λ y. open_at x.cluster_id x.generation y ≡ o) (sym (ok_second e)) p.1)))
            (λ n. Keeps-throw_if _ _))
        (λ _. Keeps-pure tt)

  pub prepare-Ready : (scope : Option AdmissionScope) → Keeps (Both env Ready) (prepare env x scope)
  unfolding prepare open_at find_state
  prepare-Ready scope = Keeps-bind _ _ (random_uuid-Both env Ready) λ id.
      Keeps-bind _ _
        (Keeps-try _ _
          (Keeps-bind _ _ (link-Ready scope _ _) λ _. execute-Both env Ready _ λ now l db n db' p e.
            (
              p.0,
              subst (λ y. open_at x.cluster_id x.generation y ≡ o)
                  (sym (insert_dispatch-inv _ db n db' e)) p.1,
            ))
          (λ e. Keeps-raise _))
        (λ _. Keeps-pure id)

  promoted :
      (id : String) (db : Db) (n : ℕ) (db' : Db)
      → open_at x.cluster_id x.generation db ≡ o
      → promote id x.cluster_id x.generation x.agent_id x.operation_id db ≡ ok (n, db')
      → o ≡ false
      → n ≡ 0
  unfolding promote
  promoted id db n db' h e f =
      let count : n
          ≡ matched
              (λ d.
                is_prepared id x.cluster_id x.generation x.agent_id x.operation_id d
                && open_at x.cluster_id x.generation db)
              db.maintenance_dispatches =
        cc in
      count ∙ matched-none _ _ db.maintenance_dispatches (h ∙ f)

  one_open : (n : ℕ) → (o ≡ false → n ≡ 0) → (n != 1) ≡ false → o ≡ true
  one_open n f h = elim (Bool-cases o) [ inl e ↦ e | inr e ↦ let z = f e in absurd (ground arith) ]

  pub begin_send-open :
      (id : String)
      → Triple
          (Both env Ready)
          (begin_send env id x)
          (λ _ w. (o ≡ true) × (requests w ≡ l0))
          (λ w. requests w ≡ l0)
  unfolding begin_send
  begin_send-open id =
      Triple-bind _ _
        (Triple-try {E = λ w. requests w ≡ l0} _ _
          (Triple-execute env {R = λ n w. (o ≡ false → n ≡ 0) × (requests w ≡ l0)} _ (λ w p. p.0)
            (λ w n db p e. p.0) (λ w n db p e. (λ f. promoted id w.db n db p.1 e f, p.0)))
          (λ e. Triple-raise _ (λ w p. p)))
        λ n.
          Triple-fact _
            λ f. Triple-weaken _ (λ _ w p. (one_open n f p.0, p.1)) (Triple-throw_if _ _ (λ w p. p))
