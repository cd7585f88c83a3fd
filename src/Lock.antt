-- ===== src/Lock.antt =====
-- apps/api/src/operations/operation-lock.ts: the named locks of the database server, which serialise
-- the mutations of one service or node.
pub mod Keeps
pub mod Release
pub mod Order
pub mod Ends
use Prim.Native.Nat.{Ordering}
use Prim.Native.Char.{nul}
use Prim.Native.String.{◌++◌ as concat, compare, slice}
use docklane.Prelude.{
  ℕ, String, Bool, true, false, List, [], ◌∷◌, ◌++◌, map, Option, none, some, ◌==◌, String-eq,
  contains, if◌then◌else◌,
}
use docklane.Exec.{
  Fault, fault_message, on_result, Result, ok, err, Failure, conflict, error, World, Env, M, pure,
  raise, attempt, lift, ◌>>=◌, ◌>>◌, tick, settle, restore, ask,
}

pub data ResourceType : Type 0 where
  service node : ResourceType

abbrev type_text : ResourceType → String
type_text service = "service"
type_text node = "node"

abbrev nul_text : String
nul_text = String.◌∷◌ nul String.[]

unfoldable pub resource_lock_key : ResourceType → String → String → String
resource_lock_key type cluster_id resource_id =
    concat (type_text type) (concat nul_text (concat cluster_id (concat nul_text resource_id)))

-- new Set(…), and sort() with no comparison function: by code units, which is the order of the
-- code points here, since a lock's name is ASCII.
unfoldable pub unique : List String → List String
unfolding contains
unique [] = []
unique (x ∷ xs) = let rest = unique xs in if contains rest x then rest else x ∷ rest

unfoldable pub insert_sorted : String → List String → List String
insert_sorted x [] = x ∷ []
insert_sorted x (y ∷ ys) = elim (compare x y) [
  | Ordering.gt ↦ y ∷ insert_sorted x ys
  | _ ↦ x ∷ y ∷ ys
]

unfoldable pub sort : List String → List String
unfolding insert_sorted
sort [] = []
sort (x ∷ xs) = insert_sorted x (sort xs)

unfoldable pub remove : String → List String → List String
remove x [] = []
remove x (y ∷ ys) = if y == x then ys else y ∷ remove x ys

abbrev pub answer_lock : Option Fault → Bool → String → World → Result (Unit {0}) × World
answer_lock (some fault) granted name w = (err (error (fault_message fault)), w)
answer_lock none true name w = (ok tt, record w { held = name ∷ w.held })
answer_lock none false name w =
    (err (conflict "Another mutation is in progress for an affected resource"), w)

module _ (env : Env) where
  unfoldable pub named_lock_name : String → String
  named_lock_name key = concat "docklane:" (slice (env.sha256_hex key) 0 55)

  unfoldable pub lock_names : List String → List String
  unfolding unique sort named_lock_name
  lock_names keys = sort (unique (map named_lock_name keys))

  -- SELECT GET_LOCK(?, 2), where any other answer than 1 is thrown. One that fails has taken no lock
  -- that the server keeps: a lock ends with the connection over which the answer is lost.
  unfoldable pub get_lock : String → M (Unit {0})
  get_lock name w =
      answer_lock (env.statement_fails w.calls) (env.get_lock w.calls name) name (tick env w)

  -- The loop over the names, with the names that it has acquired where it stops.
  unfoldable pub acquire_all : List String → List String → M (Result (Unit {0}) × List String)
  acquire_all [] acquired = pure (ok tt, acquired)
  acquire_all (name ∷ names) acquired = do
    on_result (get_lock name) (λ _. acquire_all names (name ∷ acquired))
        (λ e. pure (err e, acquired))

  -- connection.destroy(): the server ends the session, its locks and its open transaction.
  unfoldable pub destroy : M (Unit {0})
  destroy w = (ok tt, record (restore env w.saved w) { held = [] })

  -- SELECT RELEASE_LOCK(?)
  unfoldable pub release_lock : String → M (Unit {0})
  release_lock name w =
      settle env (env.statement_fails w.calls) (record (tick env w) { held = remove name w.held })
        (tick env w)

  unfoldable pub release_all : List String → M (Unit {0})
  release_all [] = pure tt
  release_all (name ∷ names) = do
    on_result (release_lock name) (λ _. release_all names) (λ _. destroy)

  -- `acquired` is pushed at its head here, so it is in the reversed order that the source releases.
  unfoldable pub with_resource_locks : {A : Type 0} → List String → M A → M A
  with_resource_locks keys body = do
    (outcome, acquired) ← acquire_all (lock_names keys) []
    result ← attempt (lift outcome >> body)
    release_all acquired
    lift result

  unfoldable pub with_service_lock : {A : Type 0} → String → String → M A → M A
  with_service_lock cluster_id service_id =
      with_resource_locks (resource_lock_key service cluster_id service_id ∷ [])

  unfoldable pub with_node_and_service_locks :
      {A : Type 0} → String → String → List String → M A → M A
  with_node_and_service_locks cluster_id node_id service_ids = with_resource_locks (
      resource_lock_key node cluster_id node_id
      ∷ map (resource_lock_key service cluster_id) service_ids)
