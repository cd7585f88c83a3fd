-- ===== src/Exec/Triple/Fixed.antt =====
-- Blocks that read tables which do not change: what was read and what was checked is known to the
-- rest of the block.
use docklane.Prelude.{ℕ, ◌≤◌, ◌≡◌, sym, ap, ◌∙◌, subst, Bool, false, arith}
use docklane.Store.{Db}
use docklane.Exec.{
  Result, ok, err, Failure, World, Env, M, ◌>>=◌, throw_if, query, tick, begin_transaction,
}
use docklane.Exec.Execute.{query_now, guarded_transaction}
use docklane.Exec.Triple.{
  Outcome, Triple, Triple-bind, Triple-given, Triple-fact, Triple-query, Triple-throw_if,
  Triple-try, Triple-raise, answered_query,
}
use docklane.Exec.Triple.Transactions.{Any, settled, rolled_back}

-- The tables are `db`, and the time is `start` or later.
abbrev pub At : ℕ → Db → World → Type 0
At start db w = (start ≤ w.now) × (w.db ≡ db)

module _ {A : Type 0} {R : A → World → Type 0} (start : ℕ) (db : Db) where
  pub Triple-guard :
      (b : Bool) (e : Failure) (k : Unit {0} → M A)
      → (b ≡ false → Triple (At start db) (k tt) R Any)
      → Triple (At start db) (throw_if b e >>= k) R Any
  Triple-guard b e k t = Triple-bind _ _ (Triple-throw_if b e (λ w p. tt)) (λ _. Triple-fact _ t)

module _ (env : Env) (start : ℕ) (db : Db) where
  ticked : (w : World) → At start db w → At start db (tick env w)
  ticked w p = (omega (arith, p.0), p.1)

  pub Triple-read :
      {A B : Type 0} {R : B → World → Type 0} (f : Db → A) (k : A → M B)
      → Triple (At start db) (k (f db)) R Any
      → Triple (At start db) (query env f >>= k) R Any
  Triple-read {R = R} f k t = Triple-bind _ _ (Triple-query env f (λ w p. (ticked w p, tt))) λ a.
      Triple-given {P = λ w. (a ≡ f db) × At start db w} _ (λ w p. (p.0 ∙ ap f p.1.1, p.1))
        (Triple-fact _ (λ e. subst (λ x. Triple (At start db) (k x) R Any) (sym e) t))

  -- The time of the answer is no earlier than `start`.
  abbrev Answered : {A : Type 0} → (ℕ → Db → A) → A → World → Type 0
  Answered f a w = ((now : ℕ) × (start ≤ now) × (a ≡ f now db)) × At start db w

  query_now-Answered :
      {A : Type 0} (f : ℕ → Db → A) → Triple (At start db) (query_now env f) (Answered f) Any
  unfolding query_now
  query_now-Answered f = record {
    at = λ w p.
        answered_query env (Answered f) Any (env.statement_fails w.calls) (f w.now w.db)
          (tick env w) ((w.now, p.0, ap (f w.now) p.1), ticked w p) tt;
  }

  pub Triple-read_now :
      {A B : Type 0} {R : B → World → Type 0} (f : ℕ → Db → A) (k : A → M B)
      → ((now : ℕ) → start ≤ now → Triple (At start db) (k (f now db)) R Any)
      → Triple (At start db) (query_now env f >>= k) R Any
  Triple-read_now {R = R} f k t =
      Triple-bind _ _ (query_now-Answered f)
        λ a. Triple-fact _ λ e. subst (λ x. Triple (At start db) (k x) R Any) (sym e.2) (t e.0 e.1)

  begun : Triple (At start db) (begin_transaction env) (λ _. At start db) Any
  unfolding begin_transaction
  begun = record {
    at = λ w p. settled (At start db) env (env.statement_fails w.calls) _ _ (ticked w p);
  }

  pub Triple-guarded-At :
      {A : Type 0} {R : A → World → Type 0} (body : M A)
      → Triple (At start db) body R Any
      → Triple (At start db) (guarded_transaction env body) R Any
  unfolding guarded_transaction
  Triple-guarded-At body k =
      Triple-try _ _ (Triple-bind _ _ begun (λ _. k))
        λ e. Triple-bind {R = λ _. Any} _ _ (rolled_back env) (λ _. Triple-raise e (λ w p. tt))

-- What an action that returned has made true.
pub returned :
    {A : Type 0} (R : A → World → Type 0) (r : Result A) (w : World) (a : A)
    → r ≡ ok a
    → Outcome R Any r w
    → R a w
returned R (ok b) w a e p = subst (λ x. R x w) (ap (λ x. elim x [ ok y ↦ y | err f ↦ b ]) e) p
returned R (err f) w a e p = cc
