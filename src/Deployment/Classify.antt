-- ===== src/Deployment/Classify.antt =====
-- apps/api/src/deployments/deployment.service.ts: classifyDeploymentSnapshot and
-- classifyRollbackSnapshot: what one inspection of the service says about a deployment.
pub mod Converged
pub mod RolledBack
use docklane.Prelude.{
  ℕ, suc, String, Text, Bool, true, false, List, [], ◌∷◌, Option, none, some, ◌&&◌, ◌||◌, not, ◌==◌,
  ◌!=◌, ℕ-eq, String-eq, Option-eq, ltb, length, keep, every, map, contains, if◌then◌else◌,
}
use docklane.Agent.{
  Slot, Slot-eq, is_positive, TaskSummary, ServiceDetailResponse, ServiceMutationPlan,
}
use docklane.Exec.{Decision, pending, success, rollback_paused, failed, external_conflict}
use docklane.Deployment.Image.{image_contains_digest}

-- new Set(…).size
unfoldable pub distinct : List Slot → ℕ
unfolding contains
distinct [] = 0
distinct (x ∷ xs) = let n = distinct xs in if contains xs x then n else suc n

abbrev pub is_running : TaskSummary → Bool
is_running task = task.state == "running" && task.desired_state == "running"

-- `!plan.targetRuntimeSpecHash`
abbrev pub is_missing : Option String → Bool
is_missing none = true
is_missing (some s) = s == ""

abbrev pub task_matches : ServiceMutationPlan → Text → TaskSummary → Bool
task_matches plan digest task =
    is_positive task.slot
    && image_contains_digest task.image digest
    && task.force_update == plan.target_force_update
    && some task.runtime_spec_hash == plan.target_runtime_spec_hash

-- The tasks of a converged service: one for each replica, each in a slot of its own, all of the plan.
unfoldable pub tasks_match : ServiceDetailResponse → ServiceMutationPlan → Text → Bool
unfolding keep every distinct
tasks_match current plan digest =
    let running = keep is_running current.tasks in
    length running == current.service.desired_replicas
    && distinct (map (λ task. task.slot) running) == current.service.desired_replicas
    && every (task_matches plan digest) running

-- The checks that stand behind a target that is observed, in the order of both classifiers.
abbrev replicas_decision : ServiceDetailResponse → ServiceMutationPlan → Text → Decision
replicas_decision current plan digest = if tasks_match current plan digest then success else pending

abbrev target_decision : ServiceDetailResponse → ServiceMutationPlan → Text → Bool → Decision
target_decision current plan digest no_op =
    if not (image_contains_digest current.service.image digest)
    then pending
    else if current.service.update_state == some "paused"
    then failed
    else if not no_op && current.service.update_state == some "rollback_completed"
    then failed
    else if not no_op && current.service.update_state != some "completed"
    then pending
    else if current.service.desired_replicas != current.service.running_replicas
    then pending
    else if is_missing plan.target_runtime_spec_hash
    then pending
    else replicas_decision current plan digest

unfoldable pub classify_deployment_snapshot :
    ServiceDetailResponse → ServiceMutationPlan → Text → Bool → Decision
classify_deployment_snapshot current plan digest no_op =
    let is_target = current.service.spec_hash == plan.target_spec_hash in
    let is_before = current.service.spec_hash == plan.before_spec_hash in
    let state = current.service.update_state in
    if state == some "rollback_started"
    then (if not is_target && not is_before then external_conflict else pending)
    else if state == some "rollback_paused"
    then (if not is_target && not is_before then external_conflict else rollback_paused)
    else if not is_target
    then (if state == some "rollback_completed" || state == some "paused"
        then (if is_before then failed else external_conflict)
        else if ltb plan.version current.service.version
        then external_conflict
        else pending)
    else target_decision current plan digest no_op

unfoldable pub classify_rollback_snapshot :
    ServiceDetailResponse → ServiceMutationPlan → Text → Decision
classify_rollback_snapshot current plan digest =
    let state = current.service.update_state in
    if current.service.spec_hash != plan.target_spec_hash
    then (if state == some "rollback_started"
        then pending
        else if ltb plan.version current.service.version
        then external_conflict
        else pending)
    else if not (image_contains_digest current.service.image digest)
    then pending
    else if state == some "paused" || state == some "rollback_paused"
    then failed
    else if state == some "rollback_started"
    then pending
    else if is_missing plan.target_runtime_spec_hash
    then pending
    else if current.service.desired_replicas != current.service.running_replicas
    then pending
    else replicas_decision current plan digest
