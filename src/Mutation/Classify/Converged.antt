-- ===== src/Mutation/Classify/Converged.antt =====
-- apps/api/src/operations/mutation-verification.ts: an independent description of the snapshots that
-- confirm a scale or a restart.
use docklane.Prelude.{
  ℕ, ◌≤◌, ◌≡◌, ◌≢◌, ◌↔◌, refl, ap, sym, subst, not_true, List, Selects, keep-Selects, Selects-keep,
  String, true, false, Option, none, some, ◌==◌, ℕ-eq, String-eq, Option-eq, keep, length, All,
  All-map, every_iff, arith, nat_eq_iff, option_eq_iff, eq_iff,
}
use docklane.Agent.{ServiceDetailResponse, TaskSummary}
use docklane.Store.{OperationRecord, OperationType}
use docklane.Mutation.Classify.{
  MutationSnapshotDecision, is_stale, is_running, is_unexpected, is_scale, tasks_converged,
  converged_replicas, classify_mutation_snapshot,
}

-- The accepted version, where there is one, is not after the inspected one.
abbrev pub IsFresh : Option ℕ → ℕ → Type 0
IsFresh none version = Unit
IsFresh (some accepted) version = accepted ≤ version

abbrev IsRunning : TaskSummary → Type 0
IsRunning task = task.state ≡ "running"

-- A completed update, with a running task for each desired replica, which all carry the counter.
pub record Restarted (operation : OperationRecord) (current : ServiceDetailResponse) : Type 0 where
  pub completed : current.service.update_state ≡ some "completed"
  pub running : List TaskSummary
  pub selected : Selects IsRunning current.tasks running
  pub counted : length running ≡ current.service.desired_replicas
  pub forced : All (λ task. task.force_update ≡ operation.target_force_update) running

-- What a scale has to show, and what the other types have to.
abbrev pub HasConverged : OperationType → OperationRecord → ServiceDetailResponse → Type 0
HasConverged OperationType.scale operation current =
    some current.service.desired_replicas ≡ operation.target_replicas
HasConverged OperationType.restart operation current = Restarted operation current
HasConverged OperationType.deploy operation current = Restarted operation current
HasConverged OperationType.rollback operation current = Restarted operation current

-- The update is not paused, and has not been, or is not being, rolled back.
abbrev IsUndisturbed : Option String → Type 0
IsUndisturbed state =
    (state ≢ some "paused")
    × (state ≢ some "rollback_started")
    × (state ≢ some "rollback_completed")

pub record Confirms (operation : OperationRecord) (current : ServiceDetailResponse) : Type 0 where
  pub fresh : IsFresh operation.result_version current.service.version
  pub spec : current.service.spec_hash ≡ operation.target_spec_hash
  pub undisturbed : IsUndisturbed current.service.update_state
  pub forced : current.service.force_update ≡ operation.target_force_update
  pub replicas : current.service.desired_replicas ≡ current.service.running_replicas
  pub converged : HasConverged operation.type operation current

pub is_stale_iff :
    (accepted : Option ℕ) (version : ℕ)
    → (is_stale accepted version ≡ false) ↔ IsFresh accepted version
is_stale_iff none version = (λ h. tt, λ h. ground arith)
is_stale_iff (some a) version = ground arith

is_unexpected_iff : (state : Option String) → (is_unexpected state ≡ false) ↔ IsUndisturbed state
is_unexpected_iff state =
    let p = option_eq_iff state (some "paused") in
    let s = option_eq_iff state (some "rollback_started") in
    let c = option_eq_iff state (some "rollback_completed") in
    (
      λ h. (
        λ e. let q = p.1 e in ground arith,
        λ e. let q = s.1 e in ground arith,
        λ e. let q = c.1 e in ground arith,
      ),
      λ h.
          let q = not_true (λ e. h.0 (p.0 e)) in
          let t = not_true (λ e. h.1 (s.0 e)) in
          let d = not_true (λ e. h.2 (c.0 e)) in ground arith,
    )

is_running_iff : (task : TaskSummary) → (is_running task ≡ true) ↔ IsRunning task
is_running_iff task = eq_iff task.state "running"

module _ (operation : OperationRecord) (current : ServiceDetailResponse) where
  Restarted-of :
      tasks_converged operation current ≡ true
      → current.service.update_state ≡ some "completed"
      → Restarted operation current
  unfolding tasks_converged
  Restarted-of h done =
      let running = keep is_running current.tasks in
      record {
        completed = done;
        running = running;
        selected = keep-Selects is_running IsRunning is_running_iff current.tasks;
        counted = ground (arith, nat_eq_iff (length running) current.service.desired_replicas);
        forced =
            All-map _ _ running
              (λ task. (nat_eq_iff task.force_update operation.target_force_update).0)
              ((every_iff (λ task. task.force_update == operation.target_force_update) running).0
                (ground arith));
      }

  tasks_converged-of : Restarted operation current → tasks_converged operation current ≡ true
  unfolding tasks_converged
  tasks_converged-of r =
      let running = keep is_running current.tasks in
      let same =
        sym (Selects-keep is_running IsRunning is_running_iff current.tasks r.running r.selected) in
      let counted =
        subst (λ (l : List TaskSummary). length l ≡ current.service.desired_replicas) same
          r.counted in
      let forced =
        subst (All (λ (task : TaskSummary). task.force_update ≡ operation.target_force_update)) same
          r.forced in
      let all_forced =
        (every_iff (λ (task : TaskSummary). task.force_update == operation.target_force_update)
            running).1
          (All-map _ _ running
            (λ task. (nat_eq_iff task.force_update operation.target_force_update).1) forced) in
      ground
        (arith, nat_eq_iff (length running) current.service.desired_replicas, counted, all_forced)

  scaled_iff :
      is_scale operation.type ≡ true
      → (converged_replicas operation current ≡ MutationSnapshotDecision.success)
        ↔ (some current.service.desired_replicas ≡ operation.target_replicas)
  scaled_iff e =
      let same = option_eq_iff (some current.service.desired_replicas) operation.target_replicas in
      (λ h. same.0 (ground arith), λ h. let q = same.1 h in ground arith)

  unscaled_iff :
      is_scale operation.type ≡ false
      → (converged_replicas operation current ≡ MutationSnapshotDecision.success)
        ↔ Restarted operation current
  unscaled_iff e =
      let done = option_eq_iff current.service.update_state (some "completed") in
      (
        λ h. Restarted-of (ground arith) (done.0 (ground arith)),
        λ r. let q = done.1 r.completed in let tasks = tasks_converged-of r in ground arith,
      )

  converged_replicas_iff :
      (type : OperationType)
      → operation.type ≡ type
      → (converged_replicas operation current ≡ MutationSnapshotDecision.success)
        ↔ HasConverged type operation current
  converged_replicas_iff OperationType.scale e = scaled_iff (ap is_scale e)
  converged_replicas_iff OperationType.restart e = unscaled_iff (ap is_scale e)
  converged_replicas_iff OperationType.deploy e = unscaled_iff (ap is_scale e)
  converged_replicas_iff OperationType.rollback e = unscaled_iff (ap is_scale e)

  Confirms-of :
      classify_mutation_snapshot operation current ≡ MutationSnapshotDecision.success
      → Confirms operation current
  unfolding classify_mutation_snapshot
  Confirms-of h = record {
    fresh = (is_stale_iff operation.result_version current.service.version).0 (ground arith);
    spec = ground (arith, eq_iff current.service.spec_hash operation.target_spec_hash);
    undisturbed = (is_unexpected_iff current.service.update_state).0 (ground arith);
    forced = ground (arith, nat_eq_iff current.service.force_update operation.target_force_update);
    replicas =
        ground
          (arith, nat_eq_iff current.service.desired_replicas current.service.running_replicas);
    converged = (converged_replicas_iff operation.type refl).0 (ground arith);
  }

  success-of_Confirms :
      Confirms operation current
      → classify_mutation_snapshot operation current ≡ MutationSnapshotDecision.success
  unfolding classify_mutation_snapshot
  success-of_Confirms c = ground (
    arith,
    (is_stale_iff operation.result_version current.service.version).1 c.fresh,
    (eq_iff current.service.spec_hash operation.target_spec_hash).1 c.spec,
    (is_unexpected_iff current.service.update_state).1 c.undisturbed,
    (nat_eq_iff current.service.force_update operation.target_force_update).1 c.forced,
    (nat_eq_iff current.service.desired_replicas current.service.running_replicas).1 c.replicas,
    (converged_replicas_iff operation.type refl).1 c.converged,
  )

-- A snapshot is classified a success exactly if it is not before the accepted version, has the
-- recorded fingerprint and forced-update counter, an update that is neither paused nor rolled back,
-- begun or done, and all its replicas running; and, for a scale, as many replicas as were asked for,
-- for the others, an update that is completed, with a running task for each replica, all with the
-- counter.
pub classify_mutation-success_iff :
    (operation : OperationRecord) (current : ServiceDetailResponse)
    → (classify_mutation_snapshot operation current ≡ MutationSnapshotDecision.success)
      ↔ Confirms operation current
classify_mutation-success_iff operation current =
    (Confirms-of operation current, success-of_Confirms operation current)
