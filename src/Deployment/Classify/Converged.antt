-- ===== src/Deployment/Classify/Converged.antt =====
-- apps/api/src/deployments/deployment.service.ts: an independent description of the snapshots that
-- classifyDeploymentSnapshot and classifyRollbackSnapshot call a success.
use docklane.Prelude.{
  ℕ, ◌≤◌, ◌<◌, ◌≡◌, ◌≢◌, ◌↔◌, inl, inr, refl, ap, sym, subst, String, Text, Bool, true, false, List,
  [], ◌∷◌, Option, none, some, some_inj, ◌++◌, ◌==◌, Selects, keep-Selects, Selects-keep, Contains,
  includes_iff, to_lower, ℕ-eq, String-eq, Option-eq, length, keep, map, contains, All, NoRepeats,
  arith, Bool-cases, nat_eq_iff, option_eq_iff, eq_iff, length-map, every_iff,
}
use docklane.Agent.{
  Slot, Slot-eq, slot_eq_iff, is_positive, TaskSummary, ServiceDetailResponse, ServiceMutationPlan,
}
use docklane.Exec.{success}
use docklane.Deployment.Image.{image_contains_digest}
use docklane.Deployment.Classify.{
  distinct, is_running, is_missing, task_matches, tasks_match, classify_deployment_snapshot,
}

All-of_contains : (xs : List Slot) (x : Slot) → contains xs x ≡ false → All (λ y. y ≢ x) xs
unfolding contains
All-of_contains [] x h = tt
All-of_contains (y ∷ ys) x h =
    (ground (arith, slot_eq_iff y x), All-of_contains ys x (ground (arith, slot_eq_iff y x)))

contains-of_All : (xs : List Slot) (x : Slot) → All (λ y. y ≢ x) xs → contains xs x ≡ false
unfolding contains
contains-of_All [] x h = refl
contains-of_All (y ∷ ys) x (n, h) = ground (arith, slot_eq_iff y x, contains-of_All ys x h, n)

distinct-le-length : (xs : List Slot) → distinct xs ≤ length xs
unfolding distinct
distinct-le-length [] = omega arith
distinct-le-length (x ∷ xs) = ground (arith, distinct-le-length xs)

NoRepeats-of_distinct : (xs : List Slot) → distinct xs ≡ length xs → NoRepeats xs
unfolding distinct
NoRepeats-of_distinct [] h = tt
NoRepeats-of_distinct (x ∷ xs) h = elim (Bool-cases (contains xs x)) [
  | inl e ↦ ground (arith, distinct-le-length xs, e)
  | inr e ↦ (All-of_contains xs x e, NoRepeats-of_distinct xs (ground (arith, e)))
]

distinct-of_NoRepeats : (xs : List Slot) → NoRepeats xs → distinct xs ≡ length xs
unfolding distinct
distinct-of_NoRepeats [] h = refl
distinct-of_NoRepeats (x ∷ xs) (a, h) =
    ground (arith, contains-of_All xs x a, distinct-of_NoRepeats xs h)

-- The reference of an image carries the digest, in letters of either case.
abbrev pub IsPinned : Option Text → Text → Type 0
IsPinned image digest =
    (text : Text) × (image ≡ some text) × Contains (to_lower text) (b'@' ∷ to_lower digest)

empty_pin :
    (text digest : Text)
    → ◌≡◌ {A = Option Text} (some []) (some text)
    → (before after : Text) → to_lower text ≡ before ++ (b'@' ∷ to_lower digest) ++ after
    → ⊥
unfolding to_lower
empty_pin [] digest e [] after f = cc
empty_pin [] digest e (x ∷ before) after f = cc
empty_pin (x ∷ text) digest e before after f = cc

pub image_contains_digest_iff :
    (image : Option Text) (digest : Text)
    → (image_contains_digest image digest ≡ true) ↔ IsPinned image digest
unfolding image_contains_digest
image_contains_digest_iff none digest = (λ h. cc, λ h. let e = h.1 in cc)
image_contains_digest_iff (some []) digest =
    (λ h. cc, λ h. absurd (empty_pin h.0 digest h.1 h.2.0 h.2.1 h.2.2))
image_contains_digest_iff (some (c ∷ s)) digest = (
  λ h. (c ∷ s, refl, (includes_iff _ _).0 h),
  λ h.
      (includes_iff _ _).1
        (subst (λ t. Contains (to_lower t) (b'@' ∷ to_lower digest)) (sym (some_inj h.1)) h.2),
)

abbrev IsRunning : TaskSummary → Type 0
IsRunning task = (task.state ≡ "running") × (task.desired_state ≡ "running")

is_running_iff : (task : TaskSummary) → (is_running task ≡ true) ↔ IsRunning task
is_running_iff task = (
  λ h. (
    ground (arith, eq_iff task.state "running"),
    ground (arith, eq_iff task.desired_state "running"),
  ),
  λ h.
      let e = (eq_iff task.state "running").1 h.0 in
      let f = (eq_iff task.desired_state "running").1 h.1 in ground arith,
)

-- A slot that is greater than zero.
abbrev IsSlotted : Slot → Type 0
IsSlotted slot = (n : ℕ) × (0 < n) × (slot ≡ Slot.from n)

is_positive_iff : (slot : Slot) → (is_positive slot ≡ true) ↔ IsSlotted slot
is_positive_iff (Slot.from n) = (
  λ h. (n, ground arith, refl),
  λ h.
      let same = (slot_eq_iff (Slot.from n) (Slot.from h.0)).1 h.2 in
      ground (arith, nat_eq_iff n h.0),
)
is_positive_iff (Slot.below n) = (λ h. cc, λ h. let e = h.2 in cc)

pub is_missing_iff :
    (hash : Option String) → (is_missing hash ≡ false) ↔ ((hash ≢ none) × (hash ≢ some ""))
is_missing_iff none = (λ h. cc, λ h. absurd (h.0 refl))
is_missing_iff (some s) = (
  λ h. (λ e. cc, λ e. let same = (eq_iff s "").1 (some_inj e) in ground arith),
  λ h. elim (Bool-cases (s == "")) [
    | inl e ↦ absurd (h.1 (ap some ((eq_iff s "").0 e)))
    | inr e ↦ e
  ],
)

-- A running task of the plan: it has a slot, runs the image, and carries the plan's fingerprints.
pub record TaskFits (plan : ServiceMutationPlan) (digest : Text) (task : TaskSummary) : Type 0 where
  pub slotted : IsSlotted task.slot
  pub image : IsPinned task.image digest
  pub forced : task.force_update ≡ plan.target_force_update
  pub runtime : some task.runtime_spec_hash ≡ plan.target_runtime_spec_hash

task_matches_iff :
    (plan : ServiceMutationPlan) (digest : Text) (task : TaskSummary)
    → (task_matches plan digest task ≡ true) ↔ TaskFits plan digest task
task_matches_iff plan digest task = (
  λ h. record {
    slotted = (is_positive_iff task.slot).0 (ground arith);
    image = (image_contains_digest_iff task.image digest).0 (ground arith);
    forced = ground (arith, nat_eq_iff task.force_update plan.target_force_update);
    runtime =
        (option_eq_iff (some task.runtime_spec_hash) plan.target_runtime_spec_hash).0
          (ground arith);
  },
  λ h.
      let e =
        (option_eq_iff (some task.runtime_spec_hash) plan.target_runtime_spec_hash).1 h.runtime in
      let slotted = (is_positive_iff task.slot).1 h.slotted in
      let pinned = (image_contains_digest_iff task.image digest).1 h.image in
      ground (arith, nat_eq_iff task.force_update plan.target_force_update, e, slotted, pinned),
)

All-map_iff {ℓ} :
    {A : Type ℓ} {P Q : A → Type 0} (xs : List A) → ((x : A) → P x → Q x) → All P xs → All Q xs
All-map_iff [] f h = tt
All-map_iff (x ∷ xs) f (p, h) = (f x p, All-map_iff xs f h)

-- Exactly one running task for each desired replica, no two in one slot, and each of the plan.
pub record TasksFit (current : ServiceDetailResponse) (plan : ServiceMutationPlan) (digest : Text)
    : Type 0 where
  pub running : List TaskSummary
  pub selected : Selects IsRunning current.tasks running
  pub counted : length running ≡ current.service.desired_replicas
  pub apart : NoRepeats (map (λ task. task.slot) running)
  pub each : All (TaskFits plan digest) running

pub tasks_match_iff :
    (current : ServiceDetailResponse) (plan : ServiceMutationPlan) (digest : Text)
    → (tasks_match current plan digest ≡ true) ↔ TasksFit current plan digest
unfolding tasks_match
tasks_match_iff current plan digest =
    let running = keep is_running current.tasks in
    let slots = map (λ (task : TaskSummary). task.slot) running in
    let many = length-map (λ (task : TaskSummary). task.slot) running in
    let n = nat_eq_iff (length running) current.service.desired_replicas in
    let m = nat_eq_iff (distinct slots) current.service.desired_replicas in
    let ev = every_iff (task_matches plan digest) running in
    (
      λ h. record {
        running = running;
        selected = keep-Selects is_running IsRunning is_running_iff current.tasks;
        counted = ground (arith, n);
        apart = NoRepeats-of_distinct slots (ground (arith, n, m, many));
        each =
            All-map_iff running (λ task. (task_matches_iff plan digest task).0)
              (ev.0 (ground arith));
      },
      λ h.
          let same =
            sym (
              Selects-keep is_running IsRunning is_running_iff current.tasks h.running
                h.selected) in
          let counted =
            subst (λ (l : List TaskSummary). length l ≡ current.service.desired_replicas) same
              h.counted in
          let apart =
            subst (λ (l : List TaskSummary). NoRepeats (map (λ task. task.slot) l)) same h.apart in
          let fits = subst (All (TaskFits plan digest)) same h.each in
          let every_fits =
            ev.1 (All-map_iff running (λ task. (task_matches_iff plan digest task).1) fits) in
          ground (arith, n, m, many, distinct-of_NoRepeats slots apart, counted, every_fits),
    )

-- A snapshot of a converged service, up to the state of its update.
pub record Observed (current : ServiceDetailResponse) (plan : ServiceMutationPlan) (digest : Text)
    : Type 0 where
  pub spec : current.service.spec_hash ≡ plan.target_spec_hash
  pub image : IsPinned current.service.image digest
  pub replicas : current.service.desired_replicas ≡ current.service.running_replicas
  pub fingerprinted :
      (plan.target_runtime_spec_hash ≢ none) × (plan.target_runtime_spec_hash ≢ some "")
  pub tasks : TasksFit current plan digest

-- The states in which a deployment can be a success: a completed update, or, where nothing was to be
-- done, any state but that of an update that is paused or rolled back half-way.
abbrev pub HasSettled : Bool → Option String → Type 0
HasSettled false state = state ≡ some "completed"
HasSettled true state =
    (state ≢ some "rollback_started") × (state ≢ some "rollback_paused") × (state ≢ some "paused")

module _ (current : ServiceDetailResponse) (plan : ServiceMutationPlan) (digest : Text) where
  abbrev state : Option String
  state = current.service.update_state

  classify-Observed :
      (no_op : Bool)
      → classify_deployment_snapshot current plan digest no_op ≡ success
      → Observed current plan digest
  unfolding classify_deployment_snapshot
  classify-Observed no_op h = record {
    spec = ground (arith, eq_iff current.service.spec_hash plan.target_spec_hash);
    image = (image_contains_digest_iff current.service.image digest).0 (ground arith);
    replicas =
        ground
          (arith, nat_eq_iff current.service.desired_replicas current.service.running_replicas);
    fingerprinted = (is_missing_iff plan.target_runtime_spec_hash).0 (ground arith);
    tasks = (tasks_match_iff current plan digest).0 (ground arith);
  }

  classify-HasSettled :
      (no_op : Bool)
      → classify_deployment_snapshot current plan digest no_op ≡ success
      → HasSettled no_op state
  unfolding classify_deployment_snapshot
  classify-HasSettled true h = (
    ground (arith, option_eq_iff state (some "rollback_started")),
    ground (arith, option_eq_iff state (some "rollback_paused")),
    ground (arith, option_eq_iff state (some "paused")),
  )
  classify-HasSettled false h = ground (arith, option_eq_iff state (some "completed"))

  classify_complete :
      (no_op : Bool)
      → Observed current plan digest
      → HasSettled no_op state
      → classify_deployment_snapshot current plan digest no_op ≡ success
  unfolding classify_deployment_snapshot
  classify_complete true o (not_started, not_rollback_paused, not_paused) = ground (
    arith,
    eq_iff current.service.spec_hash plan.target_spec_hash,
    nat_eq_iff current.service.desired_replicas current.service.running_replicas,
    (tasks_match_iff current plan digest).1 o.tasks,
    (image_contains_digest_iff current.service.image digest).1 o.image,
    (is_missing_iff plan.target_runtime_spec_hash).1 o.fingerprinted,
    option_eq_iff state (some "rollback_started"),
    option_eq_iff state (some "rollback_paused"),
    option_eq_iff state (some "paused"),
  )
  classify_complete false o settled = rw settled (
      ground (
        arith,
        eq_iff current.service.spec_hash plan.target_spec_hash,
        nat_eq_iff current.service.desired_replicas current.service.running_replicas,
        (tasks_match_iff current plan digest).1 o.tasks,
        (image_contains_digest_iff current.service.image digest).1 o.image,
        (is_missing_iff plan.target_runtime_spec_hash).1 o.fingerprinted,
      ))

  -- A deployment's snapshot is classified a success exactly if the service has the planned
  -- fingerprint, image, replicas and running tasks, each in a slot of its own, and its update has
  -- settled: completed, or in no half-way state where nothing was to be done.
  pub classify-success_iff :
      (no_op : Bool)
      → (classify_deployment_snapshot current plan digest no_op ≡ success)
        ↔ (Observed current plan digest × HasSettled no_op current.service.update_state)
  classify-success_iff no_op = (
    λ h. (classify-Observed no_op h, classify-HasSettled no_op h),
    λ h. classify_complete no_op h.0 h.1,
  )
