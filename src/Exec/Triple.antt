-- ===== src/Exec/Triple.antt =====
-- What is true after an action, of its value and the state where it returns, and of the state where
-- it throws.
pub mod Transactions
pub mod Fixed
pub mod Branches
use docklane.Prelude.{ℕ, ◌≡◌, refl, Bool, true, false, if◌then◌else◌, Option, none, some}
use docklane.Store.{Db}
use docklane.Exec.{
  Fault, undone, lost, Result, ok, err, Failure, World, Env, M, pure, raise, try, handle, continue,
  ◌>>=◌, throw_if, tick, query, statement, insertion, run_statement, answer_query,
}
use docklane.Exec.Keeps.{Keeps}
use docklane.Exec.Execute.{execute, query_now, run_update}

abbrev pub Outcome :
    {A : Type 0} → (A → World → Type 0) → (World → Type 0) → Result A → World → Type 0
Outcome R E (ok a) w = R a w
Outcome R E (err e) w = E w

pub record Triple {A : Type 0} (P : World → Type 0) (m : M A) (R : A → World → Type 0)
    (E : World → Type 0) : Type 0 where
  pub at : (w : World) → P w → Outcome R E (m w).0 (m w).1

continue-Outcome :
    {A B : Type 0} {R : A → World → Type 0} {S : B → World → Type 0} {E : World → Type 0}
    (r : Result A) (f : A → M B) (w : World)
    → ((a : A) → Triple (R a) (f a) S E)
    → Outcome R E r w
    → Outcome S E (continue r f w).0 (continue r f w).1
continue-Outcome (ok a) f w k p = (k a).at w p
continue-Outcome (err e) f w k p = p

Outcome-map :
    {A : Type 0} (R S : A → World → Type 0) (E : World → Type 0) (r : Result A) (w : World)
    → ((a : A) → R a w → S a w)
    → Outcome R E r w
    → Outcome S E r w
Outcome-map R S E (ok a) w f p = f a p
Outcome-map R S E (err e) w f p = p

handle-Outcome :
    {A : Type 0} {R : A → World → Type 0} {E F : World → Type 0} (r : Result A) (h : Failure → M A)
    (w : World)
    → ((e : Failure) → Triple E (h e) R F)
    → Outcome R E r w
    → Outcome R F (handle r h w).0 (handle r h w).1
handle-Outcome (ok a) h w k p = p
handle-Outcome (err e) h w k p = (k e).at w p

pub answered_query :
    (env : Env) {A : Type 0} (R : A → World → Type 0) (E : World → Type 0) (fault : Option Fault)
    (a : A) (w : World)
    → R a w
    → E w
    → Outcome R E (answer_query env fault a) w
answered_query env R E none a w p e = p
answered_query env R E (some x) a w p e = e

updated :
    (R : ℕ → World → Type 0) (E : World → Type 0) (fault : Option Fault) (r : Result (ℕ × Db))
    (w : World)
    → E w
    → ((n : ℕ) (db : Db) → r ≡ ok (n, db) → E (record w { db = db }))
    → ((n : ℕ) (db : Db) → r ≡ ok (n, db) → R n (record w { db = db }))
    → Outcome R E (run_update fault r w).0 (run_update fault r w).1
updated R E (some (undone m)) r w e l k = e
updated R E (some (lost m)) (err x) w e l k = e
updated R E (some (lost m)) (ok (n, db)) w e l k = l n db refl
updated R E none (err x) w e l k = e
updated R E none (ok (n, db)) w e l k = k n db refl

module _ {A B : Type 0} {P : World → Type 0} {R : A → World → Type 0} {S : B → World → Type 0}
    {E : World → Type 0} where
  pub Triple-bind :
      (m : M A) (f : A → M B)
      → Triple P m R E
      → ((a : A) → Triple (R a) (f a) S E)
      → Triple P (m >>= f) S E
  unfolding ◌>>=◌
  Triple-bind m f k l = record { at = λ w p. continue-Outcome (m w).0 f (m w).1 l (k.at w p) }

module _ {A : Type 0} {P : World → Type 0} {R : A → World → Type 0} {E : World → Type 0} where
  pub Triple-pure : (a : A) → ((w : World) → P w → R a w) → Triple P (pure a) R E
  unfolding pure
  Triple-pure a f = record { at = λ w p. f w p }

  pub Triple-raise : (e : Failure) → ((w : World) → P w → E w) → Triple P (raise e) R E
  unfolding raise
  Triple-raise e f = record { at = λ w p. f w p }

  -- The precondition holds a fact.
  pub Triple-fact : {F : Type 0} (m : M A) → (F → Triple P m R E) → Triple (λ w. F × P w) m R E
  Triple-fact m k = record { at = λ w p. (k p.0).at w p.1 }

  pub Triple-given :
      {O : World → Type 0} (m : M A) → ((w : World) → O w → P w) → Triple P m R E → Triple O m R E
  Triple-given m f k = record { at = λ w o. k.at w (f w o) }

  pub Triple-weaken :
      {S : A → World → Type 0} (m : M A)
      → ((a : A) (w : World) → R a w → S a w)
      → Triple P m R E
      → Triple P m S E
  Triple-weaken {S} m f k = record {
    at = λ w p. Outcome-map R S E (m w).0 (m w).1 (λ a. f a (m w).1) (k.at w p);
  }

  pub Triple-try :
      {F : World → Type 0} (m : M A) (h : Failure → M A)
      → Triple P m R E
      → ((e : Failure) → Triple E (h e) R F)
      → Triple P (try m h) R F
  unfolding try
  Triple-try m h k l = record { at = λ w p. handle-Outcome (m w).0 h (m w).1 l (k.at w p) }

module _ {P E : World → Type 0} where
  pub Triple-throw_if :
      (b : Bool) (e : Failure)
      → ((w : World) → P w → E w)
      → Triple P (throw_if b e) (λ _ w. (b ≡ false) × P w) E
  unfolding throw_if
  Triple-throw_if true e f = record { at = λ w p. f w p }
  Triple-throw_if false e f = record { at = λ w p. (refl, p) }

Outcome-both :
    {A : Type 0} (P : World → Type 0) (r : Result A) (w : World) → P w → Outcome (λ _. P) P r w
Outcome-both P (ok a) w p = p
Outcome-both P (err e) w p = p

pub Triple-of_Keeps :
    {A : Type 0} {P : World → Type 0} (m : M A) → Keeps P m → Triple P m (λ _. P) P
Triple-of_Keeps {P = P} m k = record { at = λ w p. Outcome-both P (m w).0 (m w).1 (k.at w p) }

Outcome-join :
    {A : Type 0} (P : World → Type 0) (r : Result A) (w : World) → Outcome (λ _. P) P r w → P w
Outcome-join P (ok a) w p = p
Outcome-join P (err e) w p = p

pub Keeps-of_Triple :
    {A : Type 0} {P : World → Type 0} (m : M A) → Triple P m (λ _. P) P → Keeps P m
Keeps-of_Triple {P = P} m k = record { at = λ w p. Outcome-join P (m w).0 (m w).1 (k.at w p) }

module _ (env : Env) {P E : World → Type 0} where
  -- A query returns what it reads.
  pub Triple-query_now :
      {A : Type 0} (f : ℕ → Db → A)
      → ((w : World) → P w → P (tick env w) × E (tick env w))
      → Triple P (query_now env f) (λ a w. (now : ℕ) × (a ≡ f now w.db) × P w) E
  unfolding query_now
  Triple-query_now f k = record {
    at = λ w p.
        answered_query env (λ a w. (now : ℕ) × (a ≡ f now w.db) × P w) E
          (env.statement_fails w.calls) (f w.now w.db) (tick env w) (w.now, refl, (k w p).0)
          (k w p).1;
  }

  pub Triple-query :
      {A : Type 0} (f : Db → A)
      → ((w : World) → P w → P (tick env w) × E (tick env w))
      → Triple P (query env f) (λ a w. (a ≡ f w.db) × P w) E
  unfolding query
  Triple-query f k = record {
    at = λ w p.
        answered_query env (λ a w. (a ≡ f w.db) × P w) E (env.statement_fails w.calls) (f w.db)
          (tick env w) (refl, (k w p).0) (k w p).1;
  }

  -- A statement that fails has left the tables, or it was carried out all the same.
  pub Triple-execute :
      {R : ℕ → World → Type 0} (f : ℕ → Db → Result (ℕ × Db))
      → ((w : World) → P w → E (tick env w))
      → ((w : World) (n : ℕ) (db : Db)
          → P w
          → f w.now w.db ≡ ok (n, db)
          → E (record (tick env w) { db = db }))
      → ((w : World) (n : ℕ) (db : Db)
          → P w
          → f w.now w.db ≡ ok (n, db)
          → R n (record (tick env w) { db = db }))
      → Triple P (execute env f) R E
  unfolding execute
  Triple-execute {R} f e l k = record {
    at = λ w p.
        updated R E (env.statement_fails w.calls) (f w.now w.db) (tick env w) (e w p)
          (λ n db h. l w n db p h) (λ n db h. k w n db p h);
  }
