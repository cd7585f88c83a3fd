-- ===== src/Exec/Ends.antt =====
-- Loops that wait: time never runs back, and an action that `Ends` never runs out of fuel.
use docklane.Prelude.{
  ℕ, ap, ◌+◌, ◌≤◌, ◌≡◌, ◌≢◌, refl, Bool, true, false, Option, none, some, arith, if◌then◌else◌,
}
use docklane.Agent.Errors.{Answer, yields, refuses}
use docklane.Store.{Db}
use docklane.Exec.Keeps.{Yields}
use docklane.Exec.{
  Fault, undone, lost, throw_if, Failure, stuck, Result, ok, err, World, Env, M, pure, raise, try,
  attempt, continue, handle, answered, ◌>>=◌, date_now, sleep, ask, dispatch, insertion, statement,
  query, begin_transaction, commit, rollback, transaction, Dispatch, NodeDispatch, dispatch_node,
  lift, run_statement, restore, settle, tick, answer_query, fork, on_result,
}

-- Started at a time from `since` on, `m` ends there too, and not for want of fuel.
pub record Ends {A : Type 0} (since : ℕ) (m : M A) : Type 0 where
  pub later : (w : World) → since ≤ w.now → since ≤ (m w).1.now
  pub fueled : (w : World) → since ≤ w.now → (m w).0 ≢ err stuck

module _ {A : Type 0} {t : ℕ} where
  pub Ends-pure : (a : A) → Ends t (pure a)
  unfolding pure
  Ends-pure a = record { later = λ w h. h; fueled = λ w h. ground arith }

  pub Ends-raise : (e : Failure) → e ≢ stuck → Ends t (raise {A = A} e)
  unfolding raise
  Ends-raise e n = record { later = λ w h. h; fueled = λ w h p. n (ground arith) }

  pub Ends-if :
      (b : Bool) (m n : M A)
      → (b ≡ true → Ends t m)
      → (b ≡ false → Ends t n)
      → Ends t (if b then m else n)
  Ends-if true m n km kn = km refl
  Ends-if false m n km kn = kn refl

  handle-later :
      (r : Result A) (h : Failure → M A)
      → r ≢ err stuck
      → ((e : Failure) → e ≢ stuck → Ends t (h e))
      → (w : World) → t ≤ w.now
      → (t ≤ (handle r h w).1.now) × ((handle r h w).0 ≢ err stuck)
  handle-later (ok a) h n kh w p = (p, ground arith)
  handle-later (err e) h n kh w p =
      let later = kh e (λ q. n (ap err q)) in (later.later w p, later.fueled w p)

  pub Ends-try :
      (m : M A) (h : Failure → M A)
      → Ends t m
      → ((e : Failure) → e ≢ stuck → Ends t (h e))
      → Ends t (try m h)
  unfolding try
  Ends-try m h km kh = record {
    later = λ w p. (handle-later (m w).0 h (km.fueled w p) kh (m w).1 (km.later w p)).0;
    fueled = λ w p. (handle-later (m w).0 h (km.fueled w p) kh (m w).1 (km.later w p)).1;
  }

-- What an action that ends can hand over: a value, or an error that is not want of fuel.
abbrev pub IsFueled : {A : Type 0} → Result A → Type 0
IsFueled (ok a) = Unit {0}
IsFueled (err e) = e ≢ stuck

attempt-IsFueled : {A : Type 0} (r : Result A) → r ≢ err stuck → IsFueled r
attempt-IsFueled (ok a) n = tt
attempt-IsFueled (err e) n = λ q. n (ap err q)

throw_if-fueled :
    (b : Bool) (e : Failure) (w : World) (t : ℕ)
    → e ≢ stuck
    → t ≤ w.now
    → (t ≤ (throw_if b e w).1.now) × ((throw_if b e w).0 ≢ err stuck)
unfolding throw_if
throw_if-fueled true e w t n p = (p, λ q. n (ground arith))
throw_if-fueled false e w t n p = (p, λ q. cc)

pub Ends-throw_if : {t : ℕ} (b : Bool) (e : Failure) → e ≢ stuck → Ends t (throw_if b e)
Ends-throw_if {t = t} b e n = record {
  later = λ w p. (throw_if-fueled b e w t n p).0;
  fueled = λ w p. (throw_if-fueled b e w t n p).1;
}

module _ {A B : Type 0} {t : ℕ} where
  continue-later :
      (r : Result A) (f : A → M B)
      → r ≢ err stuck
      → ((a : A) → Ends t (f a))
      → (w : World) → t ≤ w.now
      → (t ≤ (continue r f w).1.now) × ((continue r f w).0 ≢ err stuck)
  continue-later (ok a) f n kf w p = ((kf a).later w p, (kf a).fueled w p)
  continue-later (err e) f n kf w p = (p, λ q. n (ground arith))

  pub Ends-bind : (m : M A) (f : A → M B) → Ends t m → ((a : A) → Ends t (f a)) → Ends t (m >>= f)
  unfolding ◌>>=◌
  Ends-bind m f km kf = record {
    later = λ w p. (continue-later (m w).0 f (km.fueled w p) kf (m w).1 (km.later w p)).0;
    fueled = λ w p. (continue-later (m w).0 f (km.fueled w p) kf (m w).1 (km.later w p)).1;
  }

  yielded_later :
      (m : M A) (f : A → M B) (w : World) (r : Result A) (w' : World)
      → (m w).0 ≡ r
      → r ≢ err stuck
      → ((a : A) → Yields m a → Ends t (f a))
      → t ≤ w'.now
      → (t ≤ (continue r f w').1.now) × ((continue r f w').0 ≢ err stuck)
  yielded_later m f w (ok a) w' e n kf p =
      let k = kf a (record { before = w; returned = e }) in (k.later w' p, k.fueled w' p)
  yielded_later m f w (err x) w' e n kf p = (p, λ q. n (ground arith))

  -- The rest of a block may use that the first action can return the value.
  pub Ends-bind_of :
      (m : M A) (f : A → M B) → Ends t m → ((a : A) → Yields m a → Ends t (f a)) → Ends t (m >>= f)
  unfolding ◌>>=◌
  Ends-bind_of m f km kf = record {
    later = λ w p. (yielded_later m f w (m w).0 (m w).1 refl (km.fueled w p) kf (km.later w p)).0;
    fueled = λ w p. (yielded_later m f w (m w).0 (m w).1 refl (km.fueled w p) kf (km.later w p)).1;
  }

  -- A `try` whose outcomes are told apart.
  pub Ends-bind_attempt :
      (m : M A) (f : Result A → M B)
      → Ends t m
      → ((r : Result A) → IsFueled r → Ends t (f r))
      → Ends t (attempt m >>= f)
  unfolding ◌>>=◌ attempt
  Ends-bind_attempt m f km kf = record {
    later =
        λ w p. (kf (m w).0 (attempt-IsFueled (m w).0 (km.fueled w p))).later (m w).1 (km.later w p);
    fueled = λ w p.
        (kf (m w).0 (attempt-IsFueled (m w).0 (km.fueled w p))).fueled (m w).1 (km.later w p);
  }

module _ {A B : Type 0} {t : ℕ} where
  fork-later :
      (r : Result A) (f : A → M B) (h : Failure → M B)
      → r ≢ err stuck
      → ((a : A) → Ends t (f a))
      → ((e : Failure) → e ≢ stuck → Ends t (h e))
      → (w : World) → t ≤ w.now
      → (t ≤ (fork r f h w).1.now) × ((fork r f h w).0 ≢ err stuck)
  fork-later (ok a) f h n kf kh w p = ((kf a).later w p, (kf a).fueled w p)
  fork-later (err e) f h n kf kh w p =
      let ends = kh e (λ q. n (ap err q)) in (ends.later w p, ends.fueled w p)

  pub Ends-on_result :
      (m : M A) (f : A → M B) (h : Failure → M B)
      → Ends t m
      → ((a : A) → Ends t (f a))
      → ((e : Failure) → e ≢ stuck → Ends t (h e))
      → Ends t (on_result m f h)
  unfolding on_result
  Ends-on_result m f h km kf kh = record {
    later = λ w p. (fork-later (m w).0 f h (km.fueled w p) kf kh (m w).1 (km.later w p)).0;
    fueled = λ w p. (fork-later (m w).0 f h (km.fueled w p) kf kh (m w).1 (km.later w p)).1;
  }

module _ {A : Type 0} {t : ℕ} where
  -- What follows starts at the time that was read.
  pub Ends-bind_date_now :
      (f : ℕ → M A) → ((now : ℕ) → t ≤ now → Ends now (f now)) → Ends t (date_now >>= f)
  unfolding ◌>>=◌ date_now
  Ends-bind_date_now f kf = record {
    later = λ w p. let q = (kf w.now p).later w (omega arith) in omega arith;
    fueled = λ w p. (kf w.now p).fueled w (omega arith);
  }

  -- What follows a pause starts that much later.
  pub Ends-bind_sleep :
      (ms : ℕ) (f : Unit {0} → M A) → Ends (t + ms) (f tt) → Ends t (sleep ms >>= f)
  unfolding ◌>>=◌ sleep
  Ends-bind_sleep ms f kf = record {
    later = λ w p. let q = kf.later (record w { now = w.now + ms }) (omega arith) in omega arith;
    fueled = λ w p. kf.fueled (record w { now = w.now + ms }) (omega arith);
  }

answered-fueled : {A : Type 0} (a : Answer A) → answered a ≢ err stuck
answered-fueled (yields a) = ground arith
answered-fueled (refuses e) = ground arith

answer_query-fueled :
    {A : Type 0} (env : Env) (fault : Option Fault) (a : A) → answer_query env fault a ≢ err stuck
answer_query-fueled env none a = ground arith
answer_query-fueled env (some x) a = ground arith

restore-now : (env : Env) (o : Option Db) (w : World) → (restore env o w).now ≡ w.now
restore-now env none w = refl
restore-now env (some d) w = refl

lift-fueled : {A : Type 0} (r : Result A) → IsFueled r → r ≢ err stuck
lift-fueled (ok a) h e = cc
lift-fueled (err x) h e = h (ground arith)

pub Ends-lift : {A : Type 0} {t : ℕ} (r : Result A) → IsFueled r → Ends t (lift r)
unfolding lift
Ends-lift r h = record { later = λ w p. p; fueled = λ w p. lift-fueled r h }

module _ (env : Env) {t : ℕ} where
  pub Ends-ask : {A : Type 0} (q : ℕ → Answer A) → Ends t (ask env q)
  unfolding ask
  Ends-ask q = record { later = λ w p. omega arith; fueled = λ w p. answered-fueled (q w.calls) }

  pub Ends-dispatch : (d : Dispatch) → Ends t (dispatch env d)
  unfolding dispatch
  Ends-dispatch d = record {
    later = λ w p. omega arith;
    fueled = λ w p. answered-fueled (env.mutate w.calls d);
  }

  pub Ends-dispatch_node : (d : NodeDispatch) → Ends t (dispatch_node env d)
  unfolding dispatch_node
  Ends-dispatch_node d = record {
    later = λ w p. omega arith;
    fueled = λ w p. answered-fueled (env.mutate_node w.calls d);
  }

  pub Ends-query : {A : Type 0} (f : Db → A) → Ends t (query env f)
  unfolding query
  Ends-query f = record {
    later = λ w p. omega arith;
    fueled = λ w p. answer_query-fueled env (env.statement_fails w.calls) (f w.db);
  }

  run_statement-fueled :
      (fault : Option Fault) (o : Option Db) (w : World)
      → t ≤ w.now
      → (t ≤ (run_statement env fault o w).1.now) × ((run_statement env fault o w).0 ≢ err stuck)
  run_statement-fueled (some (undone m)) o w p = (p, ground arith)
  run_statement-fueled (some (lost m)) none w p = (p, ground arith)
  run_statement-fueled (some (lost m)) (some d) w p = (p, ground arith)
  run_statement-fueled none none w p = (p, ground arith)
  run_statement-fueled none (some d) w p = (p, ground arith)

  pub Ends-insertion : (f : ℕ → Db → Option Db) → Ends t (insertion env f)
  unfolding insertion
  Ends-insertion f = record {
    later = λ w p.
        (run_statement-fueled (env.statement_fails w.calls) (f w.now w.db) (tick env w)
          (omega arith)).0;
    fueled = λ w p.
        (run_statement-fueled (env.statement_fails w.calls) (f w.now w.db) (tick env w)
          (omega arith)).1;
  }

  pub Ends-statement : (f : ℕ → Db → Db) → Ends t (statement env f)
  unfolding statement
  Ends-statement f = Ends-insertion (λ now db. some (f now db))

  settle-fueled :
      (fault : Option Fault) (done faulted : World)
      → t ≤ done.now
      → t ≤ faulted.now
      → (t ≤ (settle env fault done faulted).1.now)
        × ((settle env fault done faulted).0 ≢ err stuck)
  settle-fueled none done faulted p q = (p, ground arith)
  settle-fueled (some (undone m)) done faulted p q = (q, ground arith)
  settle-fueled (some (lost m)) done faulted p q = (p, ground arith)

  Ends-settle :
      (done : World → World)
      → ((w : World) → t ≤ w.now → t ≤ (done w).now)
      → Ends t (λ w. settle env (env.statement_fails w.calls) (done w) (tick env w))
  Ends-settle done later = record {
    later = λ w p.
        (settle-fueled (env.statement_fails w.calls) (done w) (tick env w) (later w p)
          (omega arith)).0;
    fueled = λ w p.
        (settle-fueled (env.statement_fails w.calls) (done w) (tick env w) (later w p)
          (omega arith)).1;
  }

  pub Ends-begin_transaction : Ends t (begin_transaction env)
  unfolding begin_transaction
  Ends-begin_transaction =
      Ends-settle (λ w. record (tick env w) { saved = some w.db }) (λ w p. omega arith)

  pub Ends-commit : Ends t (commit env)
  unfolding commit
  Ends-commit = Ends-settle (λ w. record (tick env w) { saved = none }) (λ w p. omega arith)

  pub Ends-rollback : Ends t (rollback env)
  unfolding rollback
  Ends-rollback =
      Ends-settle (λ w. restore env w.saved (tick env w))
        (λ w p. omega (arith, restore-now env w.saved (tick env w)))

  pub Ends-transaction : {A : Type 0} (body : M A) → Ends t body → Ends t (transaction env body)
  unfolding transaction
  Ends-transaction body kb = Ends-bind _ _ Ends-begin_transaction λ _.
      Ends-try _ _ (Ends-bind _ _ kb (λ a. Ends-bind _ _ Ends-commit (λ _. Ends-pure a)))
        (λ e n. Ends-bind _ _ Ends-rollback (λ _. Ends-raise e n))
