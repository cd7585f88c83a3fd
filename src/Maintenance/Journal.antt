-- ===== src/Maintenance/Journal.antt =====
-- apps/api/src/clusters/maintenance-dispatch-journal.ts: what is recorded of a mutation before and
-- after it is sent. The statements run on the connection of the resource lock.
use docklane.Prelude.{
  ℕ, String, Bool, true, false, ◌&&◌, ◌||◌, not, [], ◌∷◌, ◌++◌, Option, none, some, ◌==◌, ◌!=◌,
  String-eq, ℕ-eq, Option-eq, find, update_where, matched, if◌then◌else◌,
}
use docklane.Agent.Errors.{pre_dispatch, maintenance_unavailable}
use docklane.Store.{Db}
use docklane.Exec.{
  Result, ok, err, Failure, error, agent, service_unavailable, duplicate_dispatch, M, Env, pure,
  raise, try, on_result, throw_if, ◌>>=◌, ◌>>◌,
}
use docklane.Exec.Uuid.{random_uuid}
use docklane.Exec.Execute.{execute}
use docklane.Maintenance.{
  opened, ActiveAdmission, DispatchPhase, prepared, sending, acknowledged, rejected, uncertain,
  MaintenanceDispatch,
}
use docklane.Maintenance.Statements.{find_state, is_at}

abbrev pub phase_eq : DispatchPhase → DispatchPhase → Bool
phase_eq prepared prepared = true
phase_eq sending sending = true
phase_eq acknowledged acknowledged = true
phase_eq rejected rejected = true
phase_eq uncertain uncertain = true
phase_eq _ _ = false

abbrev pub phase_allowed : DispatchPhase → DispatchPhase → Bool
phase_allowed prepared to = phase_eq to sending || phase_eq to rejected
phase_allowed sending to = phase_eq to acknowledged || phase_eq to rejected || phase_eq to uncertain
phase_allowed acknowledged to = false
phase_allowed rejected to = false
phase_allowed uncertain to = false

-- apps/api/src/clusters/maintenance-admission-context.ts: the admission that is active.
pub record AdmissionScope : Type 0 where
  pub id : String
  pub cluster_id : String

unfoldable pub find_dispatch : String → Db → Option MaintenanceDispatch
unfolding find
find_dispatch id db = find (λ d. d.id == id) db.maintenance_dispatches

-- WHERE id = ? AND cluster_id = ? AND (operation_id IS NULL OR operation_id = ?)
abbrev can_link : AdmissionScope → String → String → ActiveAdmission → Bool
can_link scope cluster_id operation_id a =
    a.id == scope.id
    && a.cluster_id == cluster_id
    && (a.operation_id == none || a.operation_id == some operation_id)

unfoldable pub link_admission : AdmissionScope → String → String → Db → Result (ℕ × Db)
unfolding update_where matched
link_admission scope cluster_id operation_id db = ok (
  matched (can_link scope cluster_id operation_id) db.active_admissions,
  record db {
    active_admissions =
        update_where (can_link scope cluster_id operation_id)
          (λ a. record a { operation_id = some operation_id }) db.active_admissions;
  },
)

-- The keys id and (cluster_id, operation_id) are unique, and the cluster has a maintenance state.
unfoldable pub insert_dispatch : MaintenanceDispatch → Db → Result (ℕ × Db)
unfolding find find_state
insert_dispatch d db =
    elim (find
      (λ r. r.id == d.id || r.cluster_id == d.cluster_id && r.operation_id == d.operation_id)
      db.maintenance_dispatches) [
        | some _ ↦ err (error "ER_DUP_ENTRY")
        | none ↦ elim (find_state d.cluster_id db) [
          | none ↦ err (error "ER_NO_REFERENCED_ROW_2")
          | some _ ↦
              ok (1, record db { maintenance_dispatches = db.maintenance_dispatches ++ d ∷ [] })
        ]
      ]

-- The maintenance of the cluster is OPEN at the generation.
unfoldable pub open_at : String → ℕ → Db → Bool
unfolding find_state
open_at cluster_id generation db = elim (find_state cluster_id db) [
  | none ↦ false
  | some r ↦ is_at cluster_id opened generation r
]

abbrev pub is_prepared : String → String → ℕ → String → String → MaintenanceDispatch → Bool
is_prepared id cluster_id generation agent_id operation_id d =
    d.id == id
    && d.cluster_id == cluster_id
    && d.agent_id == agent_id
    && d.operation_id == operation_id
    && phase_eq d.phase prepared
    && d.generation == generation

abbrev pub set_phase : (MaintenanceDispatch → Bool) → DispatchPhase → Db → Result (ℕ × Db)
unfolding update_where matched
set_phase p phase db = ok (
  matched p db.maintenance_dispatches,
  record db {
    maintenance_dispatches =
        update_where p (λ d. record d { phase = phase }) db.maintenance_dispatches;
  },
)

-- The join with the state of the maintenance.
unfoldable pub promote : String → String → ℕ → String → String → Db → Result (ℕ × Db)
unfolding open_at update_where matched
promote id cluster_id generation agent_id operation_id db =
    set_phase
      (λ d.
        is_prepared id cluster_id generation agent_id operation_id d
        && open_at cluster_id generation db)
      sending db

unfoldable pub change_phase : String → DispatchPhase → DispatchPhase → Db → Result (ℕ × Db)
unfolding update_where matched
change_phase id from to db = set_phase (λ d. d.id == id && phase_eq d.phase from) to db

abbrev pub is_duplicate : Failure → Bool
is_duplicate duplicate_dispatch = true
is_duplicate _ = false

abbrev pub prepare_failure : Failure → Failure
prepare_failure (error code) =
    if code == "ER_DUP_ENTRY"
    then duplicate_dispatch
    else service_unavailable "Mutation dispatch journal unavailable before send"
prepare_failure _ = service_unavailable "Mutation dispatch journal unavailable before send"

-- What a mutation is sent under.
pub record Lineage : Type 0 where
  pub cluster_id : String
  pub generation : ℕ
  pub agent_id : String
  pub operation_id : String

module _ (env : Env) where
  unfoldable pub link : Option AdmissionScope → String → String → M (Unit {0})
  link none cluster_id operation_id = pure tt
  link (some scope) cluster_id operation_id =
      if scope.cluster_id == cluster_id
      then (do
        affected ← execute env (λ _. link_admission scope cluster_id operation_id)
        throw_if (affected != 1) (service_unavailable "Active admission operation linkage failed"))
      else pure tt

  unfoldable pub prepare : Lineage → Option AdmissionScope → M String
  prepare l scope = do
    id ← random_uuid env
    try
        (do
          link scope l.cluster_id l.operation_id
          execute env λ _. insert_dispatch record {
            id = id;
            cluster_id = l.cluster_id;
            generation = l.generation;
            agent_id = l.agent_id;
            operation_id = l.operation_id;
            phase = prepared;
          })
        (λ e. raise (prepare_failure e))
    pure id

  unfoldable pub begin_send : String → Lineage → M (Unit {0})
  begin_send id l = do
    affected ←
        try (execute env (λ _. promote id l.cluster_id l.generation l.agent_id l.operation_id))
          (λ e. raise (service_unavailable "Mutation dispatch evidence unavailable before send"))
    throw_if (affected != 1)
        (service_unavailable "Mutation dispatch generation or maintenance state changed")

  unfoldable pub transition : String → DispatchPhase → DispatchPhase → M (Unit {0})
  transition id from to = do
    throw_if (not (phase_allowed from to)) (error "Invalid dispatch evidence transition")
    affected ← execute env (λ _. change_phase id from to)
    throw_if (affected != 1) (service_unavailable "Dispatch evidence state changed or unavailable")

  -- The catch of the statements before the send; `id` is null where none was made.
  unfoldable pub refuse_send : {A : Type 0} → Option String → Failure → M A
  refuse_send none e =
      raise (if is_duplicate e then e else agent (pre_dispatch maintenance_unavailable))
  refuse_send (some id) e = if is_duplicate e then raise e else (do
    try (transition id prepared rejected) (λ _. pure tt)
    raise (agent (pre_dispatch maintenance_unavailable)))

  unfoldable pub send_recorded : {A : Type 0} → String → M A → (Failure → Bool) → M A
  send_recorded id send is_definite_rejection =
      on_result send (λ response. do transition id sending acknowledged; pure response)
        λ e. do
          try (transition id sending (if is_definite_rejection e then rejected else uncertain))
              (λ _. pure tt)
          raise e

  -- execute
  unfoldable pub execute_dispatch :
      {A : Type 0} → Lineage → Option AdmissionScope → M A → (Failure → Bool) → M A
  execute_dispatch l scope send is_definite_rejection =
      on_result (prepare l scope)
        (λ id.
          on_result (begin_send id l) (λ _. send_recorded id send is_definite_rejection)
            (refuse_send (some id)))
        (refuse_send none)
