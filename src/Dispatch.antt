-- ===== src/Dispatch.antt =====
-- apps/api/src/agent/mutation-dispatch-context.ts: a request that changes the cluster is made in the
-- scope of the operation that was persisted for it.
use Prim.Native.Char.{code}
use docklane.Prelude.{ℕ, ◌+◌, String, ◌||◌, ◌==◌, String-eq, ltb, if◌then◌else◌}
use docklane.Exec.{error, M, throw_if, ◌>>◌}

-- The length of a JavaScript string: a character past the basic plane is two code units.
unfoldable pub units : String → ℕ
units String.[] = 0
units (String.◌∷◌ c s) = (if ltb (code c) 65536 then 1 else 2) + units s

unfoldable pub with_mutation_operation : {A : Type 0} → String → M A → M A
with_mutation_operation operation_id run = do
  throw_if (operation_id == "" || ltb 64 (units operation_id))
      (error "Durable operation ID is required for mutation dispatch")
  run
