-- ===== src/Maintenance/Phases.antt =====
-- apps/api/src/clusters/maintenance-dispatch-journal.ts: what becomes of a row of the journal.
use docklane.Prelude.{◌≡◌, String, String-eq, true, Option, none, some}
use mathlib.Core.Option
use docklane.Store.{Db}
use docklane.Exec.{Requests}
use docklane.Maintenance.{DispatchPhase, prepared, MaintenanceDispatch}
use docklane.Maintenance.Journal.{find_dispatch, phase_allowed}
use docklane.Maintenance.Runs.{Runs}

-- A row is written PREPARED; its phase changes as it is allowed to, and nothing else of it does.
pub data Move (p q : Option MaintenanceDispatch) : Type 0 where
  written : (d : MaintenanceDispatch) → d.phase ≡ prepared → p ≡ none → q ≡ some d → Move p q
  changed :
      (d : MaintenanceDispatch) (to : DispatchPhase)
      → phase_allowed d.phase to ≡ true
      → p ≡ some d
      → q ≡ some (record d { phase = to })
      → Move p q

pub data Moves (p : Option MaintenanceDispatch) : Option MaintenanceDispatch → Type 0 where
  still : Moves p p
  move : {q r : Option MaintenanceDispatch} → Moves p q → Move q r → Moves p r

module _ (id : String) (p : Option MaintenanceDispatch) where
  abbrev Journalled : Requests → Db → Type 0
  Journalled l db = Moves p (find_dispatch id db)
