-- ===== src/Node/Keeps/Executing.antt =====
-- apps/api/src/operations/node-mutation.service.ts: the request that changes a node is made behind
-- the intent that is committed, and once; a plan that changes nothing makes none.
use docklane.Prelude.{
  ◌≡◌, refl, String, List, Option, none, some, Bool, true, false, subst, ◌==◌, String-eq,
  if◌then◌else◌,
}
use docklane.Store.{NodeOperationType, Db}
use docklane.Store.NodeOperations
use docklane.Store.NodeOperations.{new_row}
use docklane.Store.NodeOperations.Rows.{create-inv, find_operation-create}
use docklane.Exec.{
  Env, Requests, NodeDispatch, World, M, Failure, raise, named_services, dispatch_node, statement,
  transaction,
}
use docklane.Exec.Keeps.{Keeps, Keeps-both, Keeps-bind, Keeps-throw_if, Keeps-pure}
use docklane.Exec.Keeps.Tables.{
  Holds, Holds-ask, Holds-query, Holds-statement, Holds-begin_transaction, Holds-rollback,
  Holds-commit,
}
use docklane.Exec.Meets.{
  Meets, Meets-of_Keeps, Keeps-of_Meets, Meets-bind, Meets-try, Meets-on_result, Meets-raise, Seen,
  Seen-statement, Meets-insertion, Meets-commit, Meets-with, Meets-dispatch_node,
}
use docklane.Dispatch.{with_mutation_operation, units}
use docklane.Lock.{with_node_and_service_locks}
use docklane.Lock.Keeps.{with_resource_locks-Keeps}
use docklane.Mutation.Service.{Principal}
use docklane.Traces.{Stable, Kept, NodeRecorded, NodeRecorded-Stable, Admits}
use docklane.Node.Persist.{
  NodeIntent, intent_row, persist_intent, assert_accepted_matches_plan,
  assert_plan_matches_locked_node,
}
use docklane.Node.Service.{
  Change, NodeMutationRequest, send, execute, dispatch_intent, verify_persisted, execute_intent,
  mutate_new, mutate_locked, mutate,
}
use docklane.Node.Keeps.Verifying.{require_operation-Keeps}
use docklane.Node.Keeps.{
  mark_running-Kept, mark_verifying-Kept, Holds-write, verify_and_complete_locked-Keeps,
}
use docklane.Node.Keeps.Handlers.{
  affected_before_lock-Keeps, refuse_conflicts-Keeps, plan_first-Keeps, plan_last-Keeps,
  assert_cluster-Keeps, settle_prior-Keeps, after_dispatch_error-Keeps, repeat_or-Keeps,
}

-- The request of an intent, by its type.
abbrev typed_dispatch : NodeIntent → String → NodeOperationType → NodeDispatch
typed_dispatch intent node_id type = record {
  operation_id = intent.operation_id;
  node_id = node_id;
  type = type;
  expected_version = intent.plan.version;
  expected_spec_hash = intent.plan.before_spec_hash;
  target_spec_hash = intent.plan.target_spec_hash;
  expected_service_ids = named_services type intent.plan.affected_service_ids;
  target_labels = intent.plan.target_labels;
}

abbrev intent_dispatch : NodeIntent → String → NodeDispatch
intent_dispatch intent node_id = typed_dispatch intent node_id intent.type

module _ (env : Env) {Ready NodeReady : String → Requests → Type 0} {Q : Requests → Db → Type 0}
    (admits : Admits Ready NodeReady Q) where
  -- Between the insertion of the intent and its request.
  abbrev Armed : NodeIntent → String → Requests → Db → Type 0
  Armed intent node_id l db =
      Q l db × NodeRecorded (intent_dispatch intent node_id) db × NodeReady intent.operation_id l

  Armed-Stable : (intent : NodeIntent) (node_id : String) → Stable (Armed intent node_id)
  Armed-Stable intent node_id =
      let recorded = NodeRecorded-Stable (intent_dispatch intent node_id) in
      record {
        updates = λ id f same l db h.
            (admits.stable.updates id f same l db h.0, recorded.updates id f same l db h.1, h.2);
        node_updates = λ id f same l db h. (
          admits.stable.node_updates id f same l db h.0,
          recorded.node_updates id f same l db h.1,
          h.2,
        );
        audits = λ event l db h.
            (admits.stable.audits event l db h.0, recorded.audits event l db h.1, h.2);
      }

  Armed-create :
      (intent : NodeIntent) (node_id : String) (l : Requests) (db db' : Db)
      → Q l db
      → NodeOperations.create (intent_row intent) db ≡ some db'
      → Q l db' × Armed intent node_id l db'
  Armed-create intent node_id l db db' q e =
      let q' = admits.node_creates (intent_row intent) l db db' q e in
      (
        q',
        (
          q',
          record {
            row = new_row (intent_row intent);
            found = find_operation-create (intent_row intent) db db' e;
            type = refl;
            expected_version = refl;
            before_spec_hash = refl;
            target_spec_hash = refl;
            target_labels = refl;
            services = refl;
          },
          admits.node_ready intent.operation_id l db q (create-inv (intent_row intent) db db' e).0,
        ),
      )

  Armed-weaken :
      (intent : NodeIntent) (node_id : String) (w : World)
      → Holds (Armed intent node_id) w
      → Holds Q w
  Armed-weaken intent node_id w h = record { seen = h.seen.0; kept = λ d e. (h.kept d e).0 }

  -- While the transaction of the intent is open.
  abbrev Persisting : NodeIntent → String → World → Type 0
  Persisting intent node_id w = Holds Q w × Seen (Armed intent node_id) w

  Persisting-statement :
      (intent : NodeIntent) (node_id : String) (g : Db → Db)
      → Kept Q g
      → Kept (Armed intent node_id) g
      → Meets
          (Persisting intent node_id)
          (statement env (λ _. g))
          (Persisting intent node_id)
          (Holds Q)
  Persisting-statement intent node_id g kq ka =
      Meets-of_Keeps _
        (Keeps-both _ (Holds-statement env (λ _. g) (λ now. kq))
          (Seen-statement env (λ _. g) (λ now. ka)))
        (λ w p. p.0)

  -- The intent is committed where persistIntent returns, and nothing of it is where it throws.
  persist_intent-Meets :
      (intent : NodeIntent) (node_id : String)
      → Meets (Holds Q) (persist_intent env intent) (Holds (Armed intent node_id)) (Holds Q)
  unfolding persist_intent transaction
  persist_intent-Meets intent node_id =
      let armed = Armed-Stable intent node_id in
      Meets-bind _ _ (Meets-of_Keeps _ (Holds-begin_transaction env) (λ w p. p)) λ _.
        Meets-try {E = Holds Q} _ _
          (Meets-bind {R = Persisting intent node_id} _ _
            (Meets-bind _ _ (Meets-insertion env _ (λ now. Armed-create intent node_id)) λ _.
              Meets-bind _ _
                (Persisting-statement intent node_id _
                  (mark_running-Kept admits.stable intent.operation_id)
                  (mark_running-Kept armed intent.operation_id))
                (λ _.
                  Persisting-statement intent node_id _ (admits.stable.audits _) (armed.audits _)))
            (λ a.
              Meets-bind {R = Holds (Armed intent node_id)} _ _
                (Meets-with _ (Meets-commit env) (Holds-commit env))
                (λ _. Meets-of_Keeps _ (Keeps-pure a) (λ w p. Armed-weaken intent node_id w p))))
          (λ e.
            Meets-bind _ _ (Meets-of_Keeps _ (Holds-rollback env) (λ w p. p)) (λ _. Meets-raise e))

  sent-Meets :
      (intent : NodeIntent) (node_id : String)
      → Meets
          (Holds (Armed intent node_id))
          (dispatch_node env (intent_dispatch intent node_id))
          (Holds Q)
          (Holds Q)
  sent-Meets intent node_id =
      Meets-dispatch_node env _
        (λ l db h. admits.node_sent (intent_dispatch intent node_id) l db h.0 h.1 h.2)

  typed-Meets :
      (intent : NodeIntent) (node_id : String) (t : NodeOperationType)
      → intent.type ≡ t
      → Meets
          (Holds (Armed intent node_id))
          (dispatch_node env (typed_dispatch intent node_id t))
          (Holds Q)
          (Holds Q)
  typed-Meets intent node_id t e =
      subst
        (λ t.
          Meets (Holds (Armed intent node_id)) (dispatch_node env (typed_dispatch intent node_id t))
            (Holds Q) (Holds Q))
        e (sent-Meets intent node_id)

  refused-Meets :
      {A : Type 0} (intent : NodeIntent) (node_id : String) (e : Failure)
      → Meets (Holds (Armed intent node_id)) (raise {A = A} e) (Holds Q) (Holds Q)
  unfolding raise
  refused-Meets intent node_id e = record { at = λ w p. Armed-weaken intent node_id w p }

  send-Meets :
      (intent : NodeIntent) (node_id : String) (t : NodeOperationType)
      (labels : Option (List (String × String)))
      → intent.type ≡ t
      → Meets
          (Holds (Armed intent node_id))
          (send env t labels intent.operation_id node_id intent.plan)
          (Holds Q)
          (Holds Q)
  unfolding send
  send-Meets intent node_id NodeOperationType.labels none e = refused-Meets intent node_id _
  send-Meets intent node_id NodeOperationType.labels (some labels) e =
      typed-Meets intent node_id NodeOperationType.labels e
  send-Meets intent node_id NodeOperationType.drain none e =
      typed-Meets intent node_id NodeOperationType.drain e
  send-Meets intent node_id NodeOperationType.drain (some labels) e =
      typed-Meets intent node_id NodeOperationType.drain e
  send-Meets intent node_id NodeOperationType.activate none e =
      typed-Meets intent node_id NodeOperationType.activate e
  send-Meets intent node_id NodeOperationType.activate (some labels) e =
      typed-Meets intent node_id NodeOperationType.activate e

  dispatch_intent-Meets :
      (intent : NodeIntent) (node_id : String)
      → Meets
          (Holds (Armed intent node_id))
          (dispatch_intent env intent node_id)
          (Holds Q)
          (Holds Q)
  unfolding dispatch_intent execute with_mutation_operation assert_accepted_matches_plan units
  dispatch_intent-Meets intent node_id =
      Meets-bind {R = Holds Q} _ _
        (Meets-bind {R = Holds (Armed intent node_id)} _ _
          (Meets-of_Keeps _ (Keeps-throw_if _ _) (Armed-weaken intent node_id))
          (λ _. send-Meets intent node_id intent.type intent.plan.target_labels refl))
        (λ accepted.
          Meets-bind {R = Holds Q} _ _ (Meets-of_Keeps _ (Keeps-throw_if _ _) (λ w p. p)) (λ _.
            Meets-of_Keeps _
              (Holds-write env admits.stable _ (mark_verifying-Kept admits.stable _ _)) (λ w p. p)))

  verify_persisted-Keeps : (id : String) → Keeps (Holds Q) (verify_persisted env id)
  unfolding verify_persisted
  verify_persisted-Keeps id =
      Keeps-bind _ _ (require_operation-Keeps env id)
        (verify_and_complete_locked-Keeps env admits.stable)

  Armed-Keeps :
      {A : Type 0} (intent : NodeIntent) (node_id : String) (m : M A)
      → Keeps (Holds Q) m
      → Meets (Holds (Armed intent node_id)) m (Holds Q) (Holds Q)
  Armed-Keeps intent node_id m k = record {
    at = λ w p. (Meets-of_Keeps m k (λ w p. p)).at w (Armed-weaken intent node_id w p);
  }

  -- A branch under a condition.
  Meets-if :
      {A : Type 0} {P R E : World → Type 0} (b : Bool) (taken other : M A)
      → Meets P taken R E
      → Meets P other R E
      → Meets P (if b then taken else other) R E
  Meets-if true taken other k l = k
  Meets-if false taken other k l = l

  execute_intent-Keeps :
      (intent : NodeIntent) (node_id : String) → Keeps (Holds Q) (execute_intent env intent node_id)
  unfolding execute_intent
  execute_intent-Keeps intent node_id = Keeps-of_Meets _ (
      Meets-bind _ _ (persist_intent-Meets intent node_id) λ _.
        Meets-if (intent.plan.before_spec_hash == intent.plan.target_spec_hash) _ _
          (Armed-Keeps intent node_id _ (verify_persisted-Keeps intent.operation_id))
          (Meets-on_result {E = Holds Q} _ _ _ (dispatch_intent-Meets intent node_id)
            (λ _. Meets-of_Keeps _ (verify_persisted-Keeps intent.operation_id) (λ w p. p))
            (λ e.
              Meets-of_Keeps _ (after_dispatch_error-Keeps env admits.stable intent node_id e)
                (λ w p. p))))

  mutate_new-Keeps :
      (cluster node_id : String) (affected : List String) (input : NodeMutationRequest)
      (principal : Principal) (change : Change)
      → Keeps (Holds Q) (mutate_new env cluster node_id affected input principal change)
  unfolding mutate_new assert_plan_matches_locked_node
  mutate_new-Keeps cluster node_id affected input principal change =
      Keeps-bind _ _ (Holds-query env _) λ prior.
        Keeps-bind _ _ (settle_prior-Keeps env admits.stable prior) λ _.
          Keeps-bind _ _ (Holds-ask env _) λ locked.
            Keeps-bind _ _ (plan_first-Keeps env change node_id _) λ first.
              Keeps-bind _ _ (Keeps-throw_if _ _) λ _.
                Keeps-bind _ _ (refuse_conflicts-Keeps env cluster _) λ _.
                  Keeps-bind _ _ (plan_last-Keeps env first change node_id _) λ plan.
                    Keeps-bind _ _ (Keeps-throw_if _ _) (λ _. execute_intent-Keeps _ node_id)

  pub mutate-Keeps :
      (cluster node_ref : String) (input : NodeMutationRequest) (principal : Principal)
      (change : Change)
      → Keeps (Holds Q) (mutate env cluster node_ref input principal change)
  unfolding mutate mutate_locked with_node_and_service_locks
  mutate-Keeps cluster node_ref input principal change =
      Keeps-bind _ _ (assert_cluster-Keeps env cluster) λ _.
        Keeps-bind _ _ (Holds-ask env _) λ initial. Keeps-bind _ _ (Holds-query env _) λ found.
          Keeps-bind _ _ (affected_before_lock-Keeps env change input initial found) λ known.
            Keeps-bind _ _ (Holds-query env _) λ prior. with_resource_locks-Keeps env _ _ (
              Keeps-bind _ _ (Holds-query env _) λ existing.
                repeat_or-Keeps env admits.stable existing _ _ (mutate_new-Keeps _ _ _ _ _ _))
