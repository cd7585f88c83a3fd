-- ===== src/Maintenance/Admission.antt =====
-- apps/api/src/clusters/registered-operation-lock.ts: the lock of a resource, under which a mutation
-- is admitted; apps/api/src/clusters/cluster-binding.policy.ts: the registered cluster.
use docklane.Prelude.{
  ℕ, String, Bool, true, ◌||◌, not, List, [], ◌∷◌, ◌++◌, Option, none, some, ◌==◌, ◌!=◌, String-eq,
  ℕ-eq, Option-eq, find, keep, ltb, if◌then◌else◌,
}
use docklane.Store.{Db}
use docklane.Exec.{
  Result, ok, err, conflict, not_found, service_unavailable, error, M, Env, pure, raise, try,
  attempt, lift, throw_if, ◌>>=◌, ◌>>◌, query, statement,
}
use docklane.Exec.Uuid.{random_uuid}
use docklane.Exec.Execute.{execute}
use docklane.Lock.{with_service_lock, with_node_and_service_locks}
use docklane.Maintenance.{opened, MaintenanceRecord, ClusterRegistration, ActiveAdmission}
use docklane.Maintenance.Statements.{find_state, state_eq}
use docklane.Maintenance.Journal.{AdmissionScope, open_at}

-- CLUSTER_BINDING_SETTINGS, DOCKLANE_MAINTENANCE_ENFORCE === '1', and PROCESS_INSTANCE_ID.
pub record Settings : Type 0 where
  pub enforce_registration : Bool
  pub logical_cluster_id : String
  pub expected_swarm_cluster_id : Option String
  pub enforce_maintenance : Bool
  pub process_instance_id : String

-- SELECT … FROM cluster_registrations WHERE cluster_id = ? LIMIT 1
unfoldable pub find_registration : String → Db → Option ClusterRegistration
unfolding find
find_registration cluster_id db = find (λ r. r.cluster_id == cluster_id) db.cluster_registrations

-- !row || row.state !== 'OPEN' || generation < 1n
abbrev pub admission_closed : Option MaintenanceRecord → Bool
admission_closed none = true
admission_closed (some r) = not (state_eq r.state opened) || ltb r.generation 1

abbrev generation_of : Option MaintenanceRecord → ℕ
generation_of none = 0
generation_of (some r) = r.generation

-- INSERT INTO maintenance_active_admissions … SELECT … FROM cluster_maintenance_states WHERE …
unfoldable pub insert_admission : ActiveAdmission → Db → Result (ℕ × Db)
unfolding open_at find
insert_admission a db =
    if not (open_at a.cluster_id a.generation db)
    then ok (0, db)
    else elim (find (λ r. r.id == a.id) db.active_admissions) [
      | some _ ↦ err (error "ER_DUP_ENTRY")
      | none ↦ ok (1, record db { active_admissions = db.active_admissions ++ a ∷ [] })
    ]

unfoldable pub delete_admission : String → Db → Db
unfolding keep
delete_admission id db = record db {
  active_admissions = keep (λ a. a.id != id) db.active_admissions;
}

module _ (env : Env) (settings : Settings) where
  unfoldable pub require_registration : String → Option ClusterRegistration → M (Unit {0})
  require_registration cluster_id none = raise (service_unavailable "CLUSTER_REGISTRATION_REQUIRED")
  require_registration cluster_id (some r) =
      throw_if
        (r.cluster_id != cluster_id
          || some r.swarm_cluster_id != settings.expected_swarm_cluster_id)
        (service_unavailable "CLUSTER_REGISTRATION_MISMATCH")

  unfoldable pub assert_registered : String → M (Unit {0})
  assert_registered cluster_id = do
    throw_if (cluster_id != settings.logical_cluster_id) (not_found "Cluster not found")
    if settings.enforce_registration
        then (do
          found ←
              try (query env (find_registration cluster_id))
                (λ e. raise (service_unavailable "CLUSTER_REGISTRATION_UNAVAILABLE"))
          require_registration cluster_id found)
        else pure tt

  unfoldable pub admit : String → String → String → M String
  admit cluster_id type resource_id = do
    row ←
        try (query env (find_state cluster_id))
          (λ e. raise (service_unavailable "Maintenance state unavailable"))
    throw_if (admission_closed row) (conflict "Cluster maintenance admission closed")
    id ← random_uuid env
    affected ← execute env λ _. insert_admission record {
      id = id;
      cluster_id = cluster_id;
      generation = generation_of row;
      owner_id = settings.process_instance_id;
      resource_type = type;
      resource_id = resource_id;
      operation_id = none;
    }
    throw_if (affected != 1) (conflict "Maintenance admission changed")
    pure id

  unfoldable pub assert_maintenance_open : String → String → String → M (Option String)
  assert_maintenance_open cluster_id type resource_id =
      if settings.enforce_maintenance
      then (do id ← admit cluster_id type resource_id; pure (some id))
      else pure none

  unfoldable pub release_admission : Option String → M (Unit {0})
  release_admission none = pure tt
  release_admission (some id) = statement env (λ _. delete_admission id)

  abbrev scope_of : String → Option String → Option AdmissionScope
  scope_of cluster_id none = none
  scope_of cluster_id (some id) = some (record { id = id; cluster_id = cluster_id })

  -- `fn` under its admission, which is released whatever becomes of it.
  unfoldable pub with_admission :
      {A : Type 0} → String → String → String → (Option AdmissionScope → M A) → M A
  with_admission cluster_id type resource_id fn = do
    admission ← assert_maintenance_open cluster_id type resource_id
    result ← attempt (fn (scope_of cluster_id admission))
    release_admission admission
    lift result

  unfoldable pub with_registered_service_lock :
      {A : Type 0} → String → String → (Option AdmissionScope → M A) → M A
  with_registered_service_lock cluster_id canonical_service_id fn = do
    assert_registered cluster_id
    with_service_lock env cluster_id canonical_service_id
        (with_admission cluster_id "service" canonical_service_id fn)

  unfoldable pub with_registered_node_and_service_locks :
      {A : Type 0} → String → String → List String → (Option AdmissionScope → M A) → M A
  with_registered_node_and_service_locks cluster_id canonical_node_id service_ids fn = do
    assert_registered cluster_id
    with_node_and_service_locks env cluster_id canonical_node_id service_ids
        (with_admission cluster_id "node" canonical_node_id fn)

  -- The recovery of an operation is serialised by the lock, and asks for no admission.
  unfoldable pub with_registered_service_recovery_lock : {A : Type 0} → String → String → M A → M A
  with_registered_service_recovery_lock cluster_id service_id fn = do
    assert_registered cluster_id
    with_service_lock env cluster_id service_id fn

  unfoldable pub with_registered_node_recovery_locks :
      {A : Type 0} → String → String → List String → M A → M A
  with_registered_node_recovery_locks cluster_id node_id service_ids fn = do
    assert_registered cluster_id
    with_node_and_service_locks env cluster_id node_id service_ids fn
