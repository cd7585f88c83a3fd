-- ===== src/Store/Deployments.antt =====
-- apps/api/src/deployments/deployment.repository.ts: each statement as a function of the tables.
-- `now` is CURRENT_TIMESTAMP. Two reads of release.repository.ts stand at the end.
use docklane.Prelude.{
  ℕ, String, List, [], ◌∷◌, ◌++◌, Bool, true, false, ◌&&◌, ◌||◌, Option, none, some, ◌==◌, ℕ-eq,
  String-eq, Option-eq, find, keep, ltb, if◌then◌else◌,
}
use mathlib.Core.Option
use docklane.Prelude.Json.{Json}
use docklane.Store.{
  DeploymentStatus, DeploymentKind, DeploymentRecord, HealthCheckConfig, Db, DeploymentTargetRecord,
  ReleaseRecord,
}

-- SELECT * FROM deployments WHERE id = ? LIMIT 1
unfoldable pub find_deployment : String → Db → Option DeploymentRecord
unfolding find
find_deployment id db = find (λ d. d.id == id) db.deployments

unfoldable pub find_by_operation : String → Db → Option DeploymentRecord
unfolding find
find_by_operation operation_id db = find (λ d. d.operation_id == operation_id) db.deployments

-- JOIN rollback_attempts a ON a.deployment_id = d.id WHERE a.operation_id = ?
unfoldable pub find_by_rollback_operation : String → Db → Option DeploymentRecord
unfolding find find_deployment
find_by_rollback_operation operation_id db =
    elim (find (λ a. a.operation_id == operation_id) db.rollback_attempts) [
      | none ↦ none
      | some a ↦ find_deployment a.deployment_id db
    ]

abbrev pub is_rolled_back : DeploymentStatus → Bool
is_rolled_back DeploymentStatus.rolled_back = true
is_rolled_back _ = false

abbrev pub is_success : DeploymentStatus → Bool
is_success DeploymentStatus.success = true
is_success _ = false

-- ORDER BY … DESC LIMIT 1: the first of the rows that no row beats.
unfoldable pub latest_by :
    (DeploymentRecord → DeploymentRecord → Bool) → List DeploymentRecord → Option DeploymentRecord
latest_by beats [] = none
latest_by beats (d ∷ ds) =
    let later = latest_by beats ds in
    elim later [ none ↦ some d | some e ↦ if beats e d then some e else some d ]

-- A null `finished_at` comes last in descending order.
abbrev time_ltb : Option ℕ → Option ℕ → Bool
time_ltb none none = false
time_ltb none (some b) = true
time_ltb (some a) none = false
time_ltb (some a) (some b) = ltb a b

-- ORDER BY finished_at DESC, created_at DESC
abbrev finished_later : DeploymentRecord → DeploymentRecord → Bool
finished_later e d =
    time_ltb d.finished_at e.finished_at
    || (e.finished_at == d.finished_at && ltb d.created_at e.created_at)

-- COALESCE(finished_at, created_at)
abbrev end_time : DeploymentRecord → ℕ
end_time d = elim d.finished_at [ none ↦ d.created_at | some t ↦ t ]

abbrev ended_later : DeploymentRecord → DeploymentRecord → Bool
ended_later e d =
    ltb (end_time d) (end_time e) || (end_time e == end_time d && ltb d.created_at e.created_at)

unfoldable pub latest_successful_release_id : String → Db → Option String
unfolding keep latest_by
latest_successful_release_id target_id db =
    Option.map (λ d. d.release_id)
      (latest_by finished_later
        (keep (λ d. d.deployment_target_id == target_id && is_success d.status) db.deployments))

unfoldable pub find_latest_successful_for_release : String → String → Db → Option DeploymentRecord
unfolding keep latest_by
find_latest_successful_for_release target_id release_id db = latest_by ended_later (
    keep
      (λ d.
        d.deployment_target_id == target_id && d.release_id == release_id && is_success d.status)
      db.deployments)

pub record NewDeployment : Type 0 where
  pub kind : DeploymentKind
  pub source_deployment_id : Option String
  pub release_id : String
  pub previous_release_id : Option String
  pub deployment_target_id : String
  pub operation_id : String
  pub status : DeploymentStatus
  pub no_op : Bool
  pub before_spec : Json
  pub target_spec : Json
  pub health : HealthCheckConfig
  pub expected_service_version : ℕ
  pub created_by : String

abbrev pub new_deployment_row : String → ℕ → NewDeployment → DeploymentRecord
new_deployment_row id now n = record {
  id = id;
  kind = n.kind;
  source_deployment_id = n.source_deployment_id;
  release_id = n.release_id;
  previous_release_id = n.previous_release_id;
  deployment_target_id = n.deployment_target_id;
  operation_id = n.operation_id;
  rollback_operation_id = none;
  status = n.status;
  reason = none;
  no_op = n.no_op;
  before_spec = n.before_spec;
  target_spec = n.target_spec;
  health = n.health;
  expected_service_version = n.expected_service_version;
  finished_at = none;
  created_by = n.created_by;
  created_at = now;
}

-- Refused where the primary key or the operation of another row is taken.
unfoldable pub insert_deployment : String → ℕ → NewDeployment → Db → Option Db
unfolding find
insert_deployment id now n db =
    elim (find (λ d. d.id == id || d.operation_id == n.operation_id) db.deployments) [
      | none ↦ some (record db { deployments = db.deployments ++ new_deployment_row id now n ∷ [] })
      | some _ ↦ none
    ]

-- Refused where the operation is recorded already.
unfoldable pub record_rollback_attempt : String → String → Db → Option Db
unfolding find
record_rollback_attempt deployment_id operation_id db =
    elim (find (λ a. a.operation_id == operation_id) db.rollback_attempts) [
      | none ↦ some (record db {
        rollback_attempts =
            db.rollback_attempts
            ++ record { operation_id = operation_id; deployment_id = deployment_id } ∷ [];
      })
      | some _ ↦ none
    ]

-- UPDATE deployments SET … WHERE id = ?
unfoldable pub update_deployments :
    String → (DeploymentRecord → DeploymentRecord) → List DeploymentRecord → List DeploymentRecord
update_deployments id f [] = []
update_deployments id f (d ∷ ds) = (if d.id == id then f d else d) ∷ update_deployments id f ds

abbrev set_status : DeploymentStatus → Option String → Option ℕ → String → Db → Db
set_status status reason finished_at id db = record db {
  deployments =
      update_deployments id
        (λ d. record d { status = status; reason = reason; finished_at = finished_at })
        db.deployments;
}

unfoldable pub mark_rolling_back : String → String → Db → Db
unfolding update_deployments
mark_rolling_back id rollback_operation_id db = record db {
  deployments =
      update_deployments id
        (λ d. record d {
          status = DeploymentStatus.rolling_back;
          rollback_operation_id = some rollback_operation_id;
          reason = none;
          finished_at = none;
        })
        db.deployments;
}

unfoldable pub mark_rollback_verifying : String → Db → Db
unfolding update_deployments
mark_rollback_verifying = set_status DeploymentStatus.rollback_verifying none none

unfoldable pub mark_rollback_verification_pending : String → String → Db → Db
unfolding update_deployments
mark_rollback_verification_pending id reason =
    set_status DeploymentStatus.rollback_verifying (some reason) none id

unfoldable pub mark_rolled_back : ℕ → String → Db → Db
unfolding update_deployments
mark_rolled_back now = set_status DeploymentStatus.rolled_back none (some now)

unfoldable pub mark_rollback_failed : ℕ → String → String → Db → Db
unfolding update_deployments
mark_rollback_failed now id reason =
    set_status DeploymentStatus.rollback_failed (some reason) (some now) id

unfoldable pub mark_verifying : String → Db → Db
unfolding update_deployments
mark_verifying = set_status DeploymentStatus.verifying none none

unfoldable pub mark_verification_pending : String → String → Db → Db
unfolding update_deployments
mark_verification_pending id reason = set_status DeploymentStatus.verifying (some reason) none id

unfoldable pub mark_success : ℕ → String → Db → Db
unfolding update_deployments
mark_success now = set_status DeploymentStatus.success none (some now)

unfoldable pub mark_failed : ℕ → String → String → Db → Db
unfolding update_deployments
mark_failed now id reason = set_status DeploymentStatus.failed (some reason) (some now) id

unfoldable pub mark_needs_attention : ℕ → String → String → Db → Db
unfolding update_deployments
mark_needs_attention now id reason =
    set_status DeploymentStatus.needs_attention (some reason) (some now) id

-- release.repository.ts: findDeploymentTarget and findRelease
unfoldable pub find_deployment_target : String → Db → Option DeploymentTargetRecord
unfolding find
find_deployment_target id db = find (λ t. t.id == id) db.deployment_targets

unfoldable pub find_release : String → Db → Option ReleaseRecord
unfolding find
find_release id db = find (λ r. r.id == id) db.releases
