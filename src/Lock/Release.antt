-- ===== src/Lock/Release.antt =====
-- apps/api/src/operations/operation-lock.ts: the locks are held while the body runs, and none is held
-- when withNamedLock has ended, however it ends.
use docklane.Prelude.{
  ◌≡◌, refl, sym, ap, ◌∙◌, subst, String, Bool, true, false, List, [], ◌∷◌, All, Option, none, some,
  contains, ◌||◌, String-eq, eq-true, if◌then◌else◌, arith,
}
use docklane.Exec.{
  Fault, undone, lost, Result, ok, err, World, Env, M, tick, settle, attempt, lift, fork, on_result,
  ◌>>=◌, ◌>>◌, continue, pure,
}
use docklane.Exec.Keeps.{Keeps-pure, Keeps-bind, Keeps-lift}
use docklane.Exec.Meets.{
  After, Meets, Meets-of_Keeps, Meets-bind, Meets-on_result, Meets-attempt, Meets-end,
}
use docklane.Lock.{
  answer_lock, get_lock, acquire_all, destroy, release_lock, release_all, with_resource_locks,
  lock_names, remove,
}

-- The names that the session holds are those that the loop has acquired.
record Acquired (names acquired : List String)
    (r : Result (Result (Unit {0}) × List String) × World) : Type 0 where
  pub outcome : Result (Unit {0})
  pub last : List String
  pub returned : r.0 ≡ ok (outcome, last)
  pub held : r.1.held ≡ last
  pub full : outcome ≡ ok tt → All (λ name. contains last name ≡ true) names
  pub kept : (name : String) → contains acquired name ≡ true → contains last name ≡ true

contains-cons :
    (x y : String) (ys : List String) → contains ys y ≡ true → contains (x ∷ ys) y ≡ true
unfolding contains
contains-cons x y ys h = ground arith

contains-head : (x : String) (ys : List String) → contains (x ∷ ys) x ≡ true
unfolding contains
contains-head x ys = ap (λ b. b || contains ys x) (eq-true x)

module _ (env : Env) where
  answer_lock-After :
      (fault : Option Fault) (granted : Bool) (name : String) (acquired : List String) (w : World)
      → w.held ≡ acquired
      → After
          (λ w'. w'.held ≡ name ∷ acquired)
          (λ w'. w'.held ≡ acquired)
          (answer_lock fault granted name w).0
          (answer_lock fault granted name w).1
  answer_lock-After (some x) granted name acquired w h = h
  answer_lock-After none true name acquired w h = ap (λ l. name ∷ l) h
  answer_lock-After none false name acquired w h = h

  get_lock-Meets :
      (name : String) (acquired : List String)
      → Meets
          (λ w. w.held ≡ acquired)
          (get_lock env name)
          (λ w. w.held ≡ name ∷ acquired)
          (λ w. w.held ≡ acquired)
  unfolding get_lock
  get_lock-Meets name acquired = record {
    at = λ w h.
        answer_lock-After (env.statement_fails w.calls) (env.get_lock w.calls name) name acquired
          (tick env w) h;
  }

  acquire_next :
      (name : String) (names acquired : List String)
      → ((w : World)
          → w.held ≡ name ∷ acquired
          → Acquired names (name ∷ acquired) (acquire_all env names (name ∷ acquired) w))
      → (r : Result (Unit {0})) (w : World)
      → After (λ w'. w'.held ≡ name ∷ acquired) (λ w'. w'.held ≡ acquired) r w
      → Acquired
          (name ∷ names)
          acquired
          (fork r (λ _. acquire_all env names (name ∷ acquired)) (λ e. pure (err e, acquired)) w)
  unfolding pure
  acquire_next name names acquired more (ok a) w h =
      let rest = more w h in
      record {
        outcome = rest.outcome;
        last = rest.last;
        returned = rest.returned;
        held = rest.held;
        full = λ e. (rest.kept name (contains-head name acquired), rest.full e);
        kept = λ x p. rest.kept x (contains-cons name x acquired p);
      }
  acquire_next name names acquired more (err e) w h = record {
    outcome = err e;
    last = acquired;
    returned = refl;
    held = h;
    full = λ p. cc;
    kept = λ x p. p;
  }

  acquire_all-Acquired :
      (names acquired : List String) (w : World)
      → w.held ≡ acquired
      → Acquired names acquired (acquire_all env names acquired w)
  unfolding acquire_all pure on_result
  acquire_all-Acquired [] acquired w h = record {
    outcome = ok tt;
    last = acquired;
    returned = refl;
    held = h;
    full = λ e. tt;
    kept = λ name p. p;
  }
  acquire_all-Acquired (name ∷ names) acquired w h =
      acquire_next name names acquired (acquire_all-Acquired names (name ∷ acquired))
        (get_lock env name w).0 (get_lock env name w).1 ((get_lock-Meets name acquired).at w h)

  destroy-Meets : Meets (λ w. Unit {0}) (destroy env) (λ w. w.held ≡ []) (λ w. w.held ≡ [])
  unfolding destroy
  destroy-Meets = record { at = λ w h. refl }

  settle-After :
      (fault : Option Fault) (done failed : World) (rest : List String)
      → done.held ≡ rest
      → After
          (λ w. w.held ≡ rest)
          (λ w. Unit {0})
          (settle env fault done failed).0
          (settle env fault done failed).1
  settle-After none done failed rest p = p
  settle-After (some (undone m)) done failed rest p = tt
  settle-After (some (lost m)) done failed rest p = tt

  remove-head : (name : String) (names : List String) → remove name (name ∷ names) ≡ names
  unfolding remove
  remove-head name names = ap (λ b. if b then names else name ∷ remove name names) (eq-true name)

  release_lock-Meets :
      (name : String) (names : List String)
      → Meets
          (λ w. w.held ≡ name ∷ names)
          (release_lock env name)
          (λ w. w.held ≡ names)
          (λ w. Unit {0})
  unfolding release_lock
  release_lock-Meets name names = record {
    at = λ w h.
        settle-After (env.statement_fails w.calls) _ _ names
          (ap (remove name) h ∙ remove-head name names);
  }

  release_all-Meets :
      (names : List String)
      → Meets (λ w. w.held ≡ names) (release_all env names) (λ w. w.held ≡ []) (λ w. w.held ≡ [])
  unfolding release_all
  release_all-Meets [] = Meets-of_Keeps _ (Keeps-pure _) (λ w h. h)
  release_all-Meets (name ∷ names) =
      Meets-on_result _ _ _ (release_lock-Meets name names) (λ _. release_all-Meets names)
        (λ _. destroy-Meets)

  -- All of the locks are held.
  abbrev pub Locked : List String → World → Type 0
  Locked keys w = All (λ name. contains w.held name ≡ true) (lock_names env keys)

  module _ {A : Type 0} (keys : List String) where
    -- What is left to do once the loop over the names has stopped.
    abbrev within : Result (Unit {0}) → List String → M A → M A
    within outcome acquired body = do
      result ← attempt (lift outcome >> body)
      release_all env acquired
      lift result

    Acquired-first :
        (body : M A) (w : World)
        → (a : Acquired (lock_names env keys) [] (acquire_all env (lock_names env keys) [] w))
        → with_resource_locks env keys body w
          ≡ within a.outcome a.last body (acquire_all env (lock_names env keys) [] w).1
    unfolding with_resource_locks ◌>>=◌
    Acquired-first body w a =
        ap
          (λ r.
            continue r (λ p. within p.0 p.1 body) (acquire_all env (lock_names env keys) [] w).1)
          a.returned

    within-Meets :
        (outcome : Result (Unit {0})) (acquired : List String) (body : M A)
        → ((w : World) → (body w).1.held ≡ w.held)
        → Meets
            (λ w. w.held ≡ acquired)
            (within outcome acquired body)
            (λ w. w.held ≡ [])
            (λ w. w.held ≡ [])
    within-Meets outcome acquired body same =
        Meets-bind _ _
          (Meets-attempt _
            (Keeps-bind _ _ (Keeps-lift outcome) (λ _. record { at = λ w h. same w ∙ h })))
          (λ result.
            Meets-bind _ _ (release_all-Meets acquired)
              (λ _. Meets-of_Keeps _ (Keeps-lift result) (λ w h. h)))

    -- However the locks are acquired, however the body ends and however their release goes: a session
    -- that held no lock holds none afterwards, if the body itself takes and releases none.
    pub with_resource_locks-released :
        (body : M A)
        → ((w : World) → (body w).1.held ≡ w.held)
        → (w : World) → w.held ≡ []
        → (with_resource_locks env keys body w).1.held ≡ []
    with_resource_locks-released body same w free =
        let a = acquire_all-Acquired (lock_names env keys) [] w free in
        ap (λ r. r.1.held) (Acquired-first body w a)
        ∙ Meets-end _ (within-Meets a.outcome a.last body same) _ a.held

    lifted_first :
        (outcome : Result (Unit {0})) (body body' : M A) (w : World)
        → (outcome ≡ ok tt → body w ≡ body' w)
        → (lift outcome >>= λ _. body) w ≡ (lift outcome >>= λ _. body') w
    unfolding lift ◌>>=◌
    lifted_first (ok a) body body' w same = same refl
    lifted_first (err e) body body' w same = refl

    within-same :
        (outcome : Result (Unit {0})) (acquired : List String) (body body' : M A) (w : World)
        → (outcome ≡ ok tt → body w ≡ body' w)
        → within outcome acquired body w ≡ within outcome acquired body' w
    unfolding attempt ◌>>=◌
    within-same outcome acquired body body' w same =
        ap (λ r. continue (ok r.0) (λ result. release_all env acquired >>= λ _. lift result) r.1)
          (lifted_first outcome body body' w same)

    -- The body runs only in worlds where the session holds every lock that it asked for: two bodies
    -- that do the same there do the same under the locks.
    pub with_resource_locks-Locked :
        (body body' : M A)
        → ((w : World) → Locked keys w → body w ≡ body' w)
        → (w : World) → w.held ≡ []
        → with_resource_locks env keys body w ≡ with_resource_locks env keys body' w
    with_resource_locks-Locked body body' same w free =
        let a = acquire_all-Acquired (lock_names env keys) [] w free in
        let w' = (acquire_all env (lock_names env keys) [] w).1 in
        Acquired-first body w a
        ∙ within-same a.outcome a.last body body' w' (λ e. same w' (
            subst (λ held. All (λ name. contains held name ≡ true) (lock_names env keys))
              (sym a.held) (a.full e)))
        ∙ sym (Acquired-first body' w a)
