-- ===== src/Examples/Locks.antt =====
-- apps/api/src/operations/operation-lock.ts on the sample.
use docklane.Prelude.{
  ◌≡◌, refl, String, List, [], ◌∷◌, NoRepeats, contains, map, String-eq, if◌then◌else◌,
}
use docklane.Exec.{World, M, err, error, ask}
use docklane.Agent.{ServiceDetailResponse}
use docklane.Lock.{with_resource_locks, lock_names, named_lock_name, unique, insert_sorted, sort}
use docklane.Lock.Release.{Locked, with_resource_locks-released, with_resource_locks-Locked}
use docklane.Lock.Order.{IsSorted, lock_names-ordered}
use docklane.Examples.Sample.{env, world}

abbrev keys : List String
keys = "service web" ∷ "node n1" ∷ "service web" ∷ []

-- An inspection, as a body.
abbrev body : M ServiceDetailResponse
body = ask env (λ n. env.inspect_service n "web")

body-held : (w : World) → (body w).1.held ≡ w.held
unfolding ask
body-held w = refl

with_resource_locks-released_example : (with_resource_locks env keys body (world [])).1.held ≡ []
with_resource_locks-released_example =
    with_resource_locks-released env keys body body-held (world []) refl

-- A body that looks for its first lock before it runs.
abbrev careful : M ServiceDetailResponse
careful w = if contains w.held "docklane:node n1" then body w else (err (error "no lock"), w)

careful-body : (w : World) → Locked env keys w → body w ≡ careful w
unfolding lock_names named_lock_name unique insert_sorted sort contains
careful-body w (first, rest) = rw first refl

with_resource_locks-Locked_example :
    with_resource_locks env keys body (world []) ≡ with_resource_locks env keys careful (world [])
with_resource_locks-Locked_example =
    with_resource_locks-Locked env keys body careful careful-body (world []) refl

lock_names-ordered_example :
    IsSorted (lock_names env keys)
    × NoRepeats (lock_names env keys)
    × (contains (lock_names env keys) "node" ≡ contains (map (named_lock_name env) keys) "node")
lock_names-ordered_example = lock_names-ordered env keys "node"
