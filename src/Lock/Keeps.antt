-- ===== src/Lock/Keeps.antt =====
-- apps/api/src/operations/operation-lock.ts: an invariant of the tables that the body keeps is kept
-- under its locks, whatever becomes of acquiring and releasing them.
use docklane.Prelude.{◌≡◌, refl, String, Bool, true, false, List, [], ◌∷◌, Option, none, some}
use docklane.Store.{Db}
use docklane.Exec.{Fault, undone, lost, World, Env, M, tick, settle, restore, Requests, requests}
use docklane.Exec.Keeps.{Keeps, Keeps-bind, Keeps-pure, Keeps-lift, Keeps-on_result, Keeps-attempt}
use docklane.Exec.Keeps.Tables.{Holds}
use docklane.Lock.{
  answer_lock, get_lock, acquire_all, destroy, release_lock, release_all, with_resource_locks,
  lock_names, with_service_lock,
}

module _ (env : Env) {Q : Requests → Db → Type 0} where
  answer_lock-Holds :
      (fault : Option Fault) (granted : Bool) (name : String) (w : World)
      → Holds Q w
      → Holds Q (answer_lock fault granted name w).1
  answer_lock-Holds (some x) granted name w h = h
  answer_lock-Holds none true name w h = record { seen = h.seen; kept = h.kept }
  answer_lock-Holds none false name w h = h

  get_lock-Keeps : (name : String) → Keeps (Holds Q) (get_lock env name)
  unfolding get_lock
  get_lock-Keeps name = record {
    at = λ w h.
        answer_lock-Holds (env.statement_fails w.calls) (env.get_lock w.calls name) name
          (tick env w) (record { seen = h.seen; kept = h.kept });
  }

  acquire_all-Keeps :
      (names acquired : List String) → Keeps (Holds Q) (acquire_all env names acquired)
  unfolding acquire_all
  acquire_all-Keeps [] acquired = Keeps-pure _
  acquire_all-Keeps (name ∷ names) acquired =
      Keeps-on_result _ _ _ (get_lock-Keeps name) (λ _. acquire_all-Keeps names (name ∷ acquired))
        (λ e. Keeps-pure _)

  restored :
      (o : Option Db) (w : World)
      → Holds Q w
      → ((d : Db) → o ≡ some d → Q (requests w) d)
      → Holds Q (record (restore env o w) { held = [] })
  restored none w h k = record { seen = h.seen; kept = h.kept }
  restored (some d) w h k = record { seen = k d refl; kept = λ d' e. cc }

  destroy-Keeps : Keeps (Holds Q) (destroy env)
  unfolding destroy
  destroy-Keeps = record { at = λ w h. restored w.saved w h h.kept }

  settled :
      (fault : Option Fault) (done failed : World)
      → Holds Q done
      → Holds Q failed
      → Holds Q (settle env fault done failed).1
  settled none done failed h k = h
  settled (some (undone m)) done failed h k = k
  settled (some (lost m)) done failed h k = h

  release_lock-Keeps : (name : String) → Keeps (Holds Q) (release_lock env name)
  unfolding release_lock
  release_lock-Keeps name = record {
    at = λ w h.
        settled (env.statement_fails w.calls) _ _ (record { seen = h.seen; kept = h.kept })
          (record { seen = h.seen; kept = h.kept });
  }

  release_all-Keeps : (names : List String) → Keeps (Holds Q) (release_all env names)
  unfolding release_all
  release_all-Keeps [] = Keeps-pure _
  release_all-Keeps (name ∷ names) =
      Keeps-on_result _ _ _ (release_lock-Keeps name) (λ _. release_all-Keeps names)
        (λ e. destroy-Keeps)

  pub with_resource_locks-Keeps :
      {A : Type 0} (keys : List String) (body : M A)
      → Keeps (Holds Q) body
      → Keeps (Holds Q) (with_resource_locks env keys body)
  unfolding with_resource_locks
  with_resource_locks-Keeps keys body kb =
      Keeps-bind _ _ (acquire_all-Keeps (lock_names env keys) []) λ got.
        Keeps-bind _ _ (Keeps-attempt _ (Keeps-bind _ _ (Keeps-lift got.0) (λ _. kb)))
          (λ result. Keeps-bind _ _ (release_all-Keeps got.1) (λ _. Keeps-lift result))

  pub with_service_lock-Keeps :
      {A : Type 0} (cluster_id service_id : String) (body : M A)
      → Keeps (Holds Q) body
      → Keeps (Holds Q) (with_service_lock env cluster_id service_id body)
  unfolding with_service_lock
  with_service_lock-Keeps cluster_id service_id body kb = with_resource_locks-Keeps _ body kb
