-- ===== src/Lock/Ends.antt =====
-- apps/api/src/operations/operation-lock.ts: acquiring and releasing end, and a method that ends does
-- so under its locks.
use docklane.Prelude.{
  ℕ, ◌≤◌, ◌≢◌, String, Bool, true, false, List, [], ◌∷◌, Option, none, some, arith, ap, ◌∙◌,
}
use docklane.Store.{Db}
use docklane.Exec.{Fault, undone, lost, err, stuck, Failure, World, Env, M, tick, restore, settle}
use docklane.Exec.Ends.{
  Ends, IsFueled, Ends-pure, Ends-bind_of, Ends-bind, Ends-bind_attempt, Ends-lift, Ends-on_result,
}
use docklane.Exec.Returns.{Returns, Throws, Returns-pure, Returns-on_result_of}
use docklane.Lock.{
  answer_lock, get_lock, acquire_all, destroy, release_lock, release_all, with_resource_locks,
  lock_names,
}

module _ (env : Env) {t : ℕ} where
  answer_lock-later :
      (fault : Option Fault) (granted : Bool) (name : String) (w : World)
      → t ≤ w.now
      → (t ≤ (answer_lock fault granted name w).1.now)
        × ((answer_lock fault granted name w).0 ≢ err stuck)
  answer_lock-later (some x) granted name w p = (p, λ e. cc)
  answer_lock-later none true name w p = (p, λ e. cc)
  answer_lock-later none false name w p = (p, λ e. cc)

  get_lock-Ends : (name : String) → Ends t (get_lock env name)
  unfolding get_lock
  get_lock-Ends name = record {
    later = λ w p.
        (answer_lock-later (env.statement_fails w.calls) (env.get_lock w.calls name) name
          (tick env w) (omega arith)).0;
    fueled = λ w p.
        (answer_lock-later (env.statement_fails w.calls) (env.get_lock w.calls name) name
          (tick env w) (omega arith)).1;
  }

  acquire_all-Ends : (names acquired : List String) → Ends t (acquire_all env names acquired)
  unfolding acquire_all
  acquire_all-Ends [] acquired = Ends-pure _
  acquire_all-Ends (name ∷ names) acquired =
      Ends-on_result _ _ _ (get_lock-Ends name) (λ _. acquire_all-Ends names (name ∷ acquired))
        (λ e n. Ends-pure _)

  destroyed_now : (o : Option Db) (w : World) → t ≤ w.now → t ≤ (restore env o w).now
  destroyed_now none w p = p
  destroyed_now (some d) w p = p

  destroy-Ends : Ends t (destroy env)
  unfolding destroy
  destroy-Ends = record { later = λ w p. destroyed_now w.saved w p; fueled = λ w p e. cc }

  settled_later :
      (fault : Option Fault) (done failed : World)
      → t ≤ done.now
      → t ≤ failed.now
      → (t ≤ (settle env fault done failed).1.now) × ((settle env fault done failed).0 ≢ err stuck)
  settled_later none done failed p q = (p, λ e. cc)
  settled_later (some (undone m)) done failed p q = (q, λ e. cc)
  settled_later (some (lost m)) done failed p q = (p, λ e. cc)

  release_lock-Ends : (name : String) → Ends t (release_lock env name)
  unfolding release_lock
  release_lock-Ends name = record {
    later = λ w p. (settled_later (env.statement_fails w.calls) _ _ (omega arith) (omega arith)).0;
    fueled = λ w p. (settled_later (env.statement_fails w.calls) _ _ (omega arith) (omega arith)).1;
  }

  release_all-Ends : (names : List String) → Ends t (release_all env names)
  unfolding release_all
  release_all-Ends [] = Ends-pure _
  release_all-Ends (name ∷ names) =
      Ends-on_result _ _ _ (release_lock-Ends name) (λ _. release_all-Ends names)
        (λ e n. destroy-Ends)

-- An action that ends throws no want of fuel.
Throws-fueled : {A : Type 0} {m : M A} (e : Failure) → ((t : ℕ) → Ends t m) → Throws m e → e ≢ stuck
Throws-fueled {m = m} e k thrown stopped =
    (k thrown.before.now).fueled thrown.before (omega arith) (thrown.thrown ∙ ap err stopped)

module _ (env : Env) where
  -- What acquiring hands over is no want of fuel either.
  acquire_all-Returns :
      (names acquired : List String) → Returns (λ a. IsFueled a.0) (acquire_all env names acquired)
  unfolding acquire_all
  acquire_all-Returns [] acquired = Returns-pure _ tt
  acquire_all-Returns (name ∷ names) acquired =
      Returns-on_result_of _ _ _ (λ _. acquire_all-Returns names (name ∷ acquired))
        (λ e thrown. Returns-pure _ (Throws-fueled e (λ t. get_lock-Ends env name) thrown))

  pub with_resource_locks-Ends :
      {A : Type 0} {t : ℕ} (keys : List String) (body : M A)
      → Ends t body
      → Ends t (with_resource_locks env keys body)
  unfolding with_resource_locks
  with_resource_locks-Ends keys body kb =
      Ends-bind_of _ _ (acquire_all-Ends env (lock_names env keys) []) λ got y.
        let fueled = (acquire_all-Returns (lock_names env keys) []).at y.before got y.returned in
        Ends-bind_attempt _ _ (Ends-bind _ _ (Ends-lift got.0 fueled) (λ _. kb))
          λ result r. Ends-bind _ _ (release_all-Ends env got.1) (λ _. Ends-lift result r)
