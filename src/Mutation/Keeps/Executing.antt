-- ===== src/Mutation/Keeps/Executing.antt =====
-- apps/api/src/operations/mutation.service.ts: executeIntent, and scale and restart with it. The
-- request that changes the cluster is made behind the intent that is committed, and once.
use docklane.Prelude.{◌≡◌, refl, String, some, String-eq}
use docklane.Store.{Db}
use docklane.Store.Operations.{create, new_row}
use docklane.Store.Operations.Rows.{find_operation-create, create-inv}
use docklane.Exec.{Env, Dispatch, World, dispatch, statement, transaction, Requests}
use docklane.Exec.Keeps.{Keeps, Keeps-both, Keeps-bind, Keeps-throw_if, Keeps-pure}
use docklane.Exec.Keeps.Tables.{
  Holds, Holds-ask, Holds-query, Holds-statement, Holds-begin_transaction, Holds-rollback,
  Holds-commit,
}
use docklane.Exec.Meets.{
  Meets, Meets-of_Keeps, Keeps-of_Meets, Meets-bind, Meets-try, Meets-on_result, Meets-raise, Seen,
  Seen-statement, Meets-insertion, Meets-commit, Meets-with, Meets-dispatch,
}
use docklane.Dispatch.{with_mutation_operation, units}
use docklane.Lock.Keeps.{with_service_lock-Keeps}
use docklane.Mutation.Persist.{Intent, intent_row, persist_intent, assert_accepted_matches_plan}
use docklane.Mutation.Service.{
  Principal, ScaleServiceRequest, RestartServiceRequest, dispatch_intent, execute_intent, scale_new,
  scale_locked, scale, restart_new, restart_locked, restart,
}
use docklane.Traces.{Stable, Kept, Recorded, Recorded-Stable, Admits}
use docklane.Mutation.Keeps.{mark_running-Kept, mark_verifying-Keeps, require_operation-Keeps}
use docklane.Mutation.Keeps.Reconciling.{verify_and_complete_locked-Keeps}
use docklane.Mutation.Keeps.Handlers.{
  assert_no_node_operation_conflict-Keeps, assert_available-Keeps, planned-Keeps, assert_plan-Keeps,
  assert_cluster-Keeps, resolve_prior-Keeps, repeat_or-Keeps, after_dispatch_error-Keeps,
}

-- The request of an intent.
abbrev intent_dispatch : Intent → String → Dispatch
intent_dispatch intent service_id = record {
  operation_id = intent.operation_id;
  service_id = service_id;
  expected_version = intent.plan.version;
  expected_spec_hash = intent.plan.before_spec_hash;
  target_spec_hash = intent.plan.target_spec_hash;
  replicas = intent.target_replicas;
}

module _ (env : Env) {Ready NodeReady : String → Requests → Type 0} {Q : Requests → Db → Type 0}
    (admits : Admits Ready NodeReady Q) where
  -- Between the insertion of the intent and its request.
  abbrev Armed : Intent → String → Requests → Db → Type 0
  Armed intent service_id l db =
      Q l db × Recorded (intent_dispatch intent service_id) db × Ready intent.operation_id l

  Armed-Stable : (intent : Intent) (service_id : String) → Stable (Armed intent service_id)
  Armed-Stable intent service_id = record {
    updates = λ id f same l db h. (
      admits.stable.updates id f same l db h.0,
      (Recorded-Stable (intent_dispatch intent service_id)).updates id f same l db h.1,
      h.2,
    );
    node_updates = λ id f same l db h. (
      admits.stable.node_updates id f same l db h.0,
      (Recorded-Stable (intent_dispatch intent service_id)).node_updates id f same l db h.1,
      h.2,
    );
    audits = λ event l db h. (
      admits.stable.audits event l db h.0,
      (Recorded-Stable (intent_dispatch intent service_id)).audits event l db h.1,
      h.2,
    );
  }

  Armed-create :
      (intent : Intent) (service_id : String) (l : Requests) (db db' : Db)
      → Q l db
      → create (intent_row intent) db ≡ some db'
      → Q l db' × Armed intent service_id l db'
  Armed-create intent service_id l db db' q e =
      let q' = admits.creates (intent_row intent) l db db' q e in
      (
        q',
        (
          q',
          record {
            row = new_row (intent_row intent);
            found = find_operation-create (intent_row intent) db db' e;
            expected_version = refl;
            before_spec_hash = refl;
            target_spec_hash = refl;
            replicas = refl;
          },
          admits.ready intent.operation_id l db q (create-inv (intent_row intent) db db' e).0,
        ),
      )

  Armed-weaken :
      (intent : Intent) (service_id : String) (w : World)
      → Holds (Armed intent service_id) w
      → Holds Q w
  Armed-weaken intent service_id w h = record { seen = h.seen.0; kept = λ d e. (h.kept d e).0 }

  Meets-of_Dispatch :
      (intent : Intent) (service_id : String)
      → Meets
          (Holds (Armed intent service_id))
          (dispatch env (intent_dispatch intent service_id))
          (Holds Q)
          (Holds Q)
  Meets-of_Dispatch intent service_id =
      Meets-dispatch env _
        (λ l db h. admits.sent (intent_dispatch intent service_id) l db h.0 h.1 h.2)

  -- While the transaction of the intent is open.
  abbrev Persisting : Intent → String → World → Type 0
  Persisting intent service_id w = Holds Q w × Seen (Armed intent service_id) w

  Persisting-statement :
      (intent : Intent) (service_id : String) (g : Db → Db)
      → Kept Q g
      → Kept (Armed intent service_id) g
      → Meets
          (Persisting intent service_id)
          (statement env (λ _. g))
          (Persisting intent service_id)
          (Holds Q)
  Persisting-statement intent service_id g kq ka =
      Meets-of_Keeps _
        (Keeps-both _ (Holds-statement env (λ _. g) (λ now. kq))
          (Seen-statement env (λ _. g) (λ now. ka)))
        (λ w p. p.0)

  -- The intent is committed where persistIntent returns, and nothing of it is where it throws.
  persist_intent-Meets :
      (intent : Intent) (service_id : String)
      → Meets (Holds Q) (persist_intent env intent) (Holds (Armed intent service_id)) (Holds Q)
  unfolding persist_intent transaction
  persist_intent-Meets intent service_id =
      let armed = Armed-Stable intent service_id in
      Meets-bind _ _ (Meets-of_Keeps _ (Holds-begin_transaction env) (λ w p. p)) λ _.
        Meets-try {E = Holds Q} _ _
          (Meets-bind {R = Persisting intent service_id} _ _
            (Meets-bind _ _ (Meets-insertion env _ (λ now. Armed-create intent service_id)) λ _.
              Meets-bind _ _
                (Persisting-statement intent service_id _
                  (mark_running-Kept admits.stable intent.operation_id)
                  (mark_running-Kept armed intent.operation_id))
                (λ _.
                  Persisting-statement intent service_id _ (admits.stable.audits _)
                    (armed.audits _)))
            (λ a.
              Meets-bind {R = Holds (Armed intent service_id)} _ _
                (Meets-with _ (Meets-commit env) (Holds-commit env))
                (λ _. Meets-of_Keeps _ (Keeps-pure a) (λ w p. Armed-weaken intent service_id w p))))
          (λ e.
            Meets-bind _ _ (Meets-of_Keeps _ (Holds-rollback env) (λ w p. p)) (λ _. Meets-raise e))

  dispatch_intent-Meets :
      (intent : Intent) (service_id : String)
      → Meets
          (Holds (Armed intent service_id))
          (dispatch_intent env intent.operation_id intent.plan service_id intent.target_replicas)
          (Holds Q)
          (Holds Q)
  unfolding dispatch_intent with_mutation_operation assert_accepted_matches_plan units
  dispatch_intent-Meets intent service_id =
      Meets-bind {R = Holds Q} _ _
        (Meets-bind {R = Holds (Armed intent service_id)} _ _
          (Meets-of_Keeps _ (Keeps-throw_if _ _) (Armed-weaken intent service_id))
          (λ _. Meets-of_Dispatch intent service_id))
        (λ accepted.
          Meets-bind {R = Holds Q} _ _ (Meets-of_Keeps _ (Keeps-throw_if _ _) (λ w p. p))
            (λ _. Meets-of_Keeps _ (mark_verifying-Keeps env admits.stable _ _) (λ w p. p)))

  pub execute_intent-Keeps :
      (intent : Intent) (service_id : String)
      → Keeps (Holds Q) (execute_intent env intent service_id)
  unfolding execute_intent
  execute_intent-Keeps intent service_id = Keeps-of_Meets _ (
      Meets-bind _ _ (persist_intent-Meets intent service_id) λ _.
        Meets-on_result {E = Holds Q} _ _ _ (dispatch_intent-Meets intent service_id)
          (λ _.
            Meets-of_Keeps _
              (Keeps-bind _ _ (require_operation-Keeps env intent.operation_id)
                (verify_and_complete_locked-Keeps env admits.stable))
              (λ w p. p))
          (λ e.
            Meets-of_Keeps _ (after_dispatch_error-Keeps env admits.stable _ _ _ _ e) (λ w p. p)))

  scale_new-Keeps :
      (cluster service : String) (input : ScaleServiceRequest) (principal : Principal)
      → Keeps (Holds Q) (scale_new env cluster service input principal)
  unfolding scale_new
  scale_new-Keeps cluster service input principal =
      Keeps-bind _ _ (resolve_prior-Keeps env admits.stable cluster service) λ _.
        Keeps-bind _ _ (assert_no_node_operation_conflict-Keeps env cluster service) λ _.
          Keeps-bind _ _ (planned-Keeps env _ (Holds-ask env _)) λ plan.
            Keeps-bind _ _ (Holds-ask env _) λ before.
              Keeps-bind _ _ (assert_plan-Keeps env plan before) λ _.
                Keeps-bind _ _ (assert_available-Keeps env service _)
                  λ _. execute_intent-Keeps _ service

  restart_new-Keeps :
      (cluster service : String) (input : RestartServiceRequest) (principal : Principal)
      → Keeps (Holds Q) (restart_new env cluster service input principal)
  unfolding restart_new
  restart_new-Keeps cluster service input principal =
      Keeps-bind _ _ (resolve_prior-Keeps env admits.stable cluster service) λ _.
        Keeps-bind _ _ (assert_no_node_operation_conflict-Keeps env cluster service) λ _.
          Keeps-bind _ _ (planned-Keeps env _ (Holds-ask env _)) λ plan.
            Keeps-bind _ _ (Holds-ask env _) λ before.
              Keeps-bind _ _ (assert_plan-Keeps env plan before) λ _.
                Keeps-bind _ _ (assert_available-Keeps env service _)
                  λ _. execute_intent-Keeps _ service

  pub scale-Keeps :
      (cluster service : String) (input : ScaleServiceRequest) (principal : Principal)
      → Keeps (Holds Q) (scale env cluster service input principal)
  unfolding scale scale_locked
  scale-Keeps cluster service input principal =
      Keeps-bind _ _ (assert_cluster-Keeps env cluster) λ _.
        Keeps-bind _ _ (Holds-ask env _) λ resolved. with_service_lock-Keeps env _ _ _ (
          Keeps-bind _ _ (Holds-query env _)
            λ existing. repeat_or-Keeps env admits.stable existing _ _ (scale_new-Keeps _ _ _ _))

  pub restart-Keeps :
      (cluster service : String) (input : RestartServiceRequest) (principal : Principal)
      → Keeps (Holds Q) (restart env cluster service input principal)
  unfolding restart restart_locked
  restart-Keeps cluster service input principal =
      Keeps-bind _ _ (assert_cluster-Keeps env cluster) λ _.
        Keeps-bind _ _ (Holds-ask env _) λ resolved. with_service_lock-Keeps env _ _ _ (
          Keeps-bind _ _ (Holds-query env _)
            λ existing. repeat_or-Keeps env admits.stable existing _ _ (restart_new-Keeps _ _ _ _))
