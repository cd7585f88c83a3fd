-- ===== src/Examples/Runs.antt =====
-- Whole requests and recoveries after one another on the sample: mutation.service.ts and
-- node-mutation.service.ts of apps/api/src/operations.
use docklane.Prelude.{◌≡◌, refl, [], ◌∷◌, some}
use docklane.Prelude
use docklane.Exec.{World, requests}
use docklane.Exec.Atomic.{durable}
use docklane.Store.Operations.{find_operation}
use docklane.Store.NodeOperations
use docklane.Mutation.Service.{scale, on_application_bootstrap}
use docklane.Node.Service.{drain}
use docklane.Safety.{start, scaled, recovered, drained as then_drained}
use docklane.Safety.Traced.{Traced, Runs-Traced}
use docklane.Safety.Ended.{Runs-Ended, Runs-NodeEnded}
use docklane.Examples.Sample.{env, world, finished, drained, ann, scale_request, drain_request}

-- The sample after its scale.
abbrev scaled_world : World
scaled_world = (scale env "c1" "web" scale_request ann (world (finished ∷ []))).1

-- And after a drain.
abbrev drained_world : World
drained_world = (drain env "c1" "n1" drain_request ann scaled_world).1

Runs-Traced_example :
    Traced (requests drained_world) drained_world.db
    × Traced (requests drained_world) (durable drained_world)
Runs-Traced_example =
    Runs-Traced (world (finished ∷ [])) _
      (then_drained (scaled start env "c1" "web" scale_request ann) env "c1" "n1" drain_request ann)
      refl

ended_found : find_operation "op0" (world (finished ∷ [])).db ≡ some finished
unfolding find_operation Prelude.find
ended_found = refl

Runs-Ended_example :
    (find_operation "op0" (on_application_bootstrap env scaled_world).1.db ≡ some finished)
    × (find_operation "op0" (durable (on_application_bootstrap env scaled_world).1) ≡ some finished)
Runs-Ended_example =
    Runs-Ended (world (finished ∷ [])) _ "op0" finished
      (recovered (scaled start env "c1" "web" scale_request ann) env) refl refl ended_found

-- The sample with a drain that has ended.
abbrev ended_world : World
ended_world = record (world []) { db = record (world []).db { node_operations = drained ∷ [] } }

drained_found : NodeOperations.find_operation "op8" ended_world.db ≡ some drained
unfolding NodeOperations.find_operation Prelude.find
drained_found = refl

Runs-NodeEnded_example :
    (NodeOperations.find_operation "op8" (drain env "c1" "n1" drain_request ann ended_world).1.db
      ≡ some drained)
    × (NodeOperations.find_operation "op8"
          (durable (drain env "c1" "n1" drain_request ann ended_world).1)
        ≡ some drained)
Runs-NodeEnded_example =
    Runs-NodeEnded ended_world _ "op8" drained (then_drained start env "c1" "n1" drain_request ann)
      refl refl drained_found
