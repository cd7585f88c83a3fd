-- ===== src/Mutation/Safety.antt =====
-- apps/api/src/operations/mutation.service.ts: what reconciles and recovers only looks.
use docklane.Prelude.{◌≡◌, refl}
use docklane.Store.{OperationRecord, Db}
use docklane.Exec.{Env, World, Requests, requests}
use docklane.Exec.Keeps.Tables.{Holds}
use docklane.Traces.{Stable}
use docklane.Mutation.Verify.{reconcile_locked, verify_and_complete_locked}
use docklane.Mutation.Service.{on_application_bootstrap}
use docklane.Mutation.Keeps.Reconciling.{reconcile_locked-Keeps, verify_and_complete_locked-Keeps}
use docklane.Mutation.Keeps.Handlers.{on_application_bootstrap-Keeps}

-- The requests that were made, of services and of nodes.
abbrev Made : Requests → Requests → Db → Type 0
Made made l db = l ≡ made

Made-Stable : (made : Requests) → Stable (Made made)
Made-Stable made = record {
  updates = λ id f same l db h. h;
  node_updates = λ id f same l db h. h;
  audits = λ event l db h. h;
}

start-Made : (w : World) → Holds (Made (requests w)) w
start-Made w = record { seen = refl; kept = λ d e. refl }

-- Reconciliation of an operation, its verification and the recovery at start-up make no request that
-- changes a service or a node, whatever they are answered and however they end.
pub reconcile_locked-requests :
    (env : Env) (operation : OperationRecord) (w : World)
    → (requests (reconcile_locked env operation w).1 ≡ requests w)
      × (requests (verify_and_complete_locked env operation w).1 ≡ requests w)
      × (requests (on_application_bootstrap env w).1 ≡ requests w)
reconcile_locked-requests env operation w =
    let silent = Made-Stable (requests w) in
    let start = start-Made w in
    (
      ((reconcile_locked-Keeps env silent operation).at w start).seen,
      ((verify_and_complete_locked-Keeps env silent operation).at w start).seen,
      ((on_application_bootstrap-Keeps env silent).at w start).seen,
    )
