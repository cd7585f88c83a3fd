-- ===== src/Exec/Atomic.antt =====
-- The methods that write in one transaction: what of it stays, by how the method ends.
use docklane.Prelude.{
  ℕ, suc, ◌≡◌, ◌≢◌, refl, ap, sym, subst, some_inj, Option-cases, ◌⊎◌, inl, inr, Option, none, some,
}
use mathlib.Core.Option
use docklane.Store.{Db}
use docklane.Exec.{
  Fault, undone, lost, Result, ok, err, World, Env, M, tick, settle, restore, begin_transaction,
  commit, rollback, transaction, statement, insertion, run_statement, Requests, requests,
}
use docklane.Exec.Keeps.Tables.{Holds}
use docklane.Exec.Triple.{Outcome, Triple, Triple-bind, Triple-try, Triple-pure, Triple-raise}

-- The tables as a new session sees them: without the writes of the transaction that is open.
abbrev pub durable : World → Db
durable w = Option.get_or w.saved w.db

pub Holds-durable :
    {Q : Requests → Db → Type 0} (w : World) → Holds Q w → Q (requests w) (durable w)
Holds-durable {Q = Q} w h = elim (Option-cases w.saved) [
  | inl e ↦ subst (λ o. Q (requests w) (Option.get_or o w.db)) (sym e) h.seen
  | inr (d, e) ↦ subst (λ o. Q (requests w) (Option.get_or o w.db)) (sym e) (h.kept d e)
]

-- The last call was a statement, and it failed.
pub record Failing (env : Env) (w : World) : Type 0 where
  pub call : ℕ
  pub last : w.calls ≡ suc call
  pub failed : env.statement_fails call ≢ none

module _ (env : Env) (db : Db) where
  -- The transaction that was opened with the tables `db` is still open, `S` of what it has written.
  abbrev pub Opened : (Db → Type 0) → World → Type 0
  Opened S w = (w.saved ≡ some db) × S w.db

  -- No transaction is open, `S` of the tables.
  abbrev pub Closed : (Db → Type 0) → World → Type 0
  Closed S w = (w.saved ≡ none) × S w.db

  -- Where it throws: nothing was written, or all of it (the answer of the commit was lost), or the
  -- transaction is open yet, since the statement that was to end it, or that has begun it, failed.
  abbrev pub Thrown : (Db → Type 0) → World → Type 0
  Thrown I w = Closed (λ d. d ≡ db) w ⊎ (Closed I w ⊎ ((w.saved ≡ some db) × Failing env w))

  -- What a settled statement makes true, where `D` is true of its effect and `F` of none.
  settled :
      (R E : World → Type 0) (fault : Option Fault) (done failed : World)
      → R done
      → (fault ≢ none → E done)
      → (fault ≢ none → E failed)
      → Outcome (λ _. R) E (settle env fault done failed).0 (settle env fault done failed).1
  settled R E none done failed r d f = r
  settled R E (some (undone m)) done failed r d f = f (λ e. cc)
  settled R E (some (lost m)) done failed r d f = d (λ e. cc)

  module _ (I : Db → Type 0) where
    begun :
        Triple (Closed (λ d. d ≡ db)) (begin_transaction env) (λ _. Opened (λ d. d ≡ db)) (Thrown I)
    unfolding begin_transaction
    begun = record {
      at = λ w p.
          settled (Opened (λ d. d ≡ db)) (Thrown I) (env.statement_fails w.calls) _ _
            (ap some p.1, p.1)
            (λ n. inr (inr (ap some p.1, record { call = w.calls; last = refl; failed = n })))
            (λ n. inl p);
    }

    -- Before the handler rolls back.
    abbrev Caught : World → Type 0
    Caught w = (w.saved ≡ some db) ⊎ Closed I w

    committed : Triple (Opened I) (commit env) (λ _. Closed I) Caught
    unfolding commit
    committed = record {
      at = λ w p.
          settled (Closed I) Caught (env.statement_fails w.calls) _ _ (refl, p.1)
            (λ n. inr (refl, p.1)) (λ n. inl p.0);
    }

    restored : (o : Option Db) (w : World) → o ≡ some db → Closed (λ d. d ≡ db) (restore env o w)
    restored none w e = cc
    restored (some d) w e = (refl, some_inj e)

    unchanged : (o : Option Db) (w : World) → o ≡ none → Closed I w → Closed I (restore env o w)
    unchanged none w e p = p
    unchanged (some d) w e p = cc

    rolled_back : Triple Caught (rollback env) (λ _. Thrown I) (Thrown I)
    unfolding rollback
    rolled_back = record {
      at = λ w p. elim p [
        | inl e ↦
            settled (Thrown I) (Thrown I) (env.statement_fails w.calls)
              (restore env w.saved (tick env w)) (tick env w) (inl (restored w.saved _ e))
              (λ n. inl (restored w.saved _ e))
              (λ n. inr (inr (e, record { call = w.calls; last = refl; failed = n })))
        | inr q ↦
            settled (Thrown I) (Thrown I) (env.statement_fails w.calls)
              (restore env w.saved (tick env w)) (tick env w)
              (inr (inl (unchanged w.saved (tick env w) q.0 q)))
              (λ n. inr (inl (unchanged w.saved (tick env w) q.0 q))) (λ n. inr (inl q))
      ];
    }

    pub transaction-Triple :
        {A : Type 0} (body : M A)
        → Triple (Opened (λ d. d ≡ db)) body (λ _. Opened I) (λ w. w.saved ≡ some db)
        → Triple (Closed (λ d. d ≡ db)) (transaction env body) (λ _. Closed I) (Thrown I)
    unfolding transaction
    transaction-Triple body k = Triple-bind _ _ begun λ _.
        Triple-try {E = Caught} _ _
          (Triple-bind _ _ (Triple-caught body k)
            λ a. Triple-bind _ _ committed (λ _. Triple-pure a (λ w p. p)))
          (λ e. Triple-bind _ _ rolled_back (λ _. Triple-raise e (λ w p. p)))
      where
        caught :
            {B : Type 0} (r : Result B) (w : World)
            → Outcome (λ _. Opened I) (λ w. w.saved ≡ some db) r w
            → Outcome (λ _. Opened I) Caught r w
        caught (ok a) w p = p
        caught (err e) w p = inl p

        Triple-caught :
            {B : Type 0} (m : M B)
            → Triple (Opened (λ d. d ≡ db)) m (λ _. Opened I) (λ w. w.saved ≡ some db)
            → Triple (Opened (λ d. d ≡ db)) m (λ _. Opened I) Caught
        Triple-caught m k = record { at = λ w p. caught (m w).0 (m w).1 (k.at w p) }

  module _ (S T : Db → Type 0) where
    inserted :
        (fault : Option Fault) (o : Option Db) (w : World)
        → w.saved ≡ some db
        → ((d : Db) → o ≡ some d → T d)
        → Outcome
            (λ _. Opened T)
            (λ w. w.saved ≡ some db)
            (run_statement env fault o w).0
            (run_statement env fault o w).1
    inserted (some (undone m)) o w p k = p
    inserted (some (lost m)) none w p k = p
    inserted (some (lost m)) (some d) w p k = p
    inserted none none w p k = p
    inserted none (some d) w p k = (p, k d refl)

    -- A statement of the open transaction.
    pub insertion-Opened :
        (f : ℕ → Db → Option Db)
        → ((now : ℕ) (d d' : Db) → S d → f now d ≡ some d' → T d')
        → Triple (Opened S) (insertion env f) (λ _. Opened T) (λ w. w.saved ≡ some db)
    unfolding insertion
    insertion-Opened f k = record {
      at = λ w p.
          inserted (env.statement_fails w.calls) (f w.now w.db) (tick env w) p.0
            (λ d e. k w.now w.db d p.1 e);
    }

    pub statement-Opened :
        (f : ℕ → Db → Db)
        → ((now : ℕ) (d : Db) → S d → T (f now d))
        → Triple (Opened S) (statement env f) (λ _. Opened T) (λ w. w.saved ≡ some db)
    unfolding statement
    statement-Opened f k =
        insertion-Opened (λ now d. some (f now d))
          (λ now d d' p e. subst T (some_inj e) (k now d p))
