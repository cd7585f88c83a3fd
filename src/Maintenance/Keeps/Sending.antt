-- ===== src/Maintenance/Keeps/Sending.antt =====
-- apps/api/src/clusters/maintenance-dispatch-journal.ts and
-- apps/api/src/clusters/registered-operation-lock.ts: a mutation that is admitted, recorded and sent
-- keeps what its statements keep.
use docklane.Prelude.{not-false, refl, String, Bool, List, Option, none, some, ◌==◌, String-eq}
use docklane.Store.{Db}
use docklane.Exec.{Failure, Env, M, Requests, pure, raise, try, ◌>>◌}
use docklane.Exec.Keeps.{
  Keeps, Keeps-bind, Keeps-bind_of, Keeps-try, Keeps-throw_if, Keeps-pure, Keeps-raise, Keeps-if,
  Keeps-on_result, Keeps-attempt, Keeps-lift,
}
use docklane.Exec.Keeps.Tables.{Holds, Holds-query, Holds-statement}
use docklane.Exec.Returns.{Yields-throw_if}
use docklane.Exec.Execute.{Holds-execute}
use docklane.Lock.Keeps.{with_service_lock-Keeps, with_resource_locks-Keeps}
use docklane.Lock.{with_node_and_service_locks}
use docklane.Maintenance.{DispatchPhase}
use docklane.Maintenance.Journal.{
  AdmissionScope, Lineage, link, prepare, begin_send, transition, refuse_send, send_recorded,
  execute_dispatch, is_duplicate,
}
use docklane.Maintenance.Admission.{
  Settings, require_registration, assert_registered, admit, assert_maintenance_open,
  release_admission, with_admission, with_registered_service_lock,
  with_registered_node_and_service_locks,
}
use docklane.Maintenance.{ClusterRegistration}
use docklane.Maintenance.Keeps.{Stable}
use docklane.Maintenance.Keeps.Leasing.{random_uuid-Keeps}

module _ (env : Env) {Q : Requests → Db → Type 0} (s : Stable Q) where
  linked-Keeps :
      (scope : AdmissionScope) (c o : String) → Keeps (Holds Q) (link env (some scope) c o)
  unfolding link
  linked-Keeps scope c o =
      Keeps-if (scope.cluster_id == c) _ _
        (λ _.
          Keeps-bind _ _
            (Holds-execute env _ (λ now l db n db' q e. s.links scope c o l db n db' q e))
            (λ n. Keeps-throw_if _ _))
        (λ _. Keeps-pure tt)

  link-Keeps : (scope : Option AdmissionScope) (c o : String) → Keeps (Holds Q) (link env scope c o)
  unfolding link
  link-Keeps none c o = Keeps-pure tt
  link-Keeps (some scope) c o = linked-Keeps scope c o

  prepare-Keeps :
      (x : Lineage) (scope : Option AdmissionScope) → Keeps (Holds Q) (prepare env x scope)
  unfolding prepare
  prepare-Keeps x scope = Keeps-bind _ _ (random_uuid-Keeps env) λ id.
      Keeps-bind _ _
        (Keeps-try _ _
          (Keeps-bind _ _ (link-Keeps scope x.cluster_id x.operation_id)
            λ _. Holds-execute env _ (λ now l db n db' q e. s.prepares _ l db n db' refl q e))
          (λ e. Keeps-raise _))
        (λ _. Keeps-pure id)

  begin_send-Keeps : (id : String) (x : Lineage) → Keeps (Holds Q) (begin_send env id x)
  unfolding begin_send
  begin_send-Keeps id x =
      Keeps-bind _ _
        (Keeps-try _ _
          (Holds-execute env _ (λ now l db n db' q e. s.promotes _ _ _ _ _ l db n db' q e))
          (λ e. Keeps-raise _))
        (λ n. Keeps-throw_if _ _)

  transition-Keeps :
      (id : String) (from to : DispatchPhase) → Keeps (Holds Q) (transition env id from to)
  unfolding transition
  transition-Keeps id from to = Keeps-bind_of _ _ (Keeps-throw_if _ _) λ x y.
      Keeps-bind _ _
        (Holds-execute env _ λ now l db n db' q e.
          s.changes id from to l db n db' (not-false _ (Yields-throw_if _ _ x y)) q e)
        (λ n. Keeps-throw_if _ _)

  recorded-Keeps :
      {A : Type 0} (id : String) (from to : DispatchPhase) (e : Failure)
      → Keeps (Holds Q) (do try (transition env id from to) (λ _. pure tt); raise {A = A} e)
  recorded-Keeps id from to e =
      Keeps-bind _ _ (Keeps-try _ _ (transition-Keeps id from to) (λ _. Keeps-pure tt))
        (λ _. Keeps-raise e)

  refuse_send-Keeps :
      {A : Type 0} (o : Option String) (e : Failure) → Keeps {A = A} (Holds Q) (refuse_send env o e)
  unfolding refuse_send
  refuse_send-Keeps none e = Keeps-raise _
  refuse_send-Keeps (some id) e =
      Keeps-if (is_duplicate e) _ _ (λ _. Keeps-raise e) (λ _. recorded-Keeps id _ _ _)

  pub execute_dispatch-Keeps :
      {A : Type 0} (x : Lineage) (scope : Option AdmissionScope) (send : M A)
      (definite : Failure → Bool)
      → Keeps (Holds Q) send
      → Keeps (Holds Q) (execute_dispatch env x scope send definite)
  unfolding execute_dispatch send_recorded
  execute_dispatch-Keeps x scope send definite k =
      Keeps-on_result _ _ _ (prepare-Keeps x scope)
        (λ id.
          Keeps-on_result _ _ _ (begin_send-Keeps id x)
            (λ _.
              Keeps-on_result _ _ _ k
                (λ a. Keeps-bind _ _ (transition-Keeps id _ _) (λ _. Keeps-pure a))
                (λ e. recorded-Keeps id _ _ e))
            (refuse_send-Keeps (some id)))
        (refuse_send-Keeps none)

  module _ (settings : Settings) where
    require_registration-Keeps :
        (c : String) (o : Option ClusterRegistration)
        → Keeps (Holds Q) (require_registration env settings c o)
    unfolding require_registration
    require_registration-Keeps c none = Keeps-raise _
    require_registration-Keeps c (some r) = Keeps-throw_if _ _

    assert_registered-Keeps : (c : String) → Keeps (Holds Q) (assert_registered env settings c)
    unfolding assert_registered
    assert_registered-Keeps c = Keeps-bind _ _ (Keeps-throw_if _ _) λ _.
        Keeps-if settings.enforce_registration _ _
          (λ _.
            Keeps-bind _ _ (Keeps-try _ _ (Holds-query env _) (λ e. Keeps-raise _))
              (require_registration-Keeps c))
          (λ _. Keeps-pure tt)

    admit-Keeps : (c t r : String) → Keeps (Holds Q) (admit env settings c t r)
    unfolding admit
    admit-Keeps c t r =
        Keeps-bind _ _ (Keeps-try _ _ (Holds-query env _) (λ e. Keeps-raise _)) λ row.
          Keeps-bind _ _ (Keeps-throw_if _ _) λ _. Keeps-bind _ _ (random_uuid-Keeps env) λ id.
            Keeps-bind _ _ (Holds-execute env _ (λ now l db n db' q e. s.admits _ l db n db' q e))
              λ n. Keeps-bind _ _ (Keeps-throw_if _ _) (λ _. Keeps-pure id)

    release_admission-Keeps :
        (o : Option String) → Keeps (Holds Q) (release_admission env settings o)
    unfolding release_admission
    release_admission-Keeps none = Keeps-pure tt
    release_admission-Keeps (some id) = Holds-statement env _ (λ now l db q. s.deletes id l db q)

    with_admission-Keeps :
        {A : Type 0} (c t r : String) (fn : Option AdmissionScope → M A)
        → ((scope : Option AdmissionScope) → Keeps (Holds Q) (fn scope))
        → Keeps (Holds Q) (with_admission env settings c t r fn)
    unfolding with_admission assert_maintenance_open
    with_admission-Keeps c t r fn k =
        Keeps-bind _ _
          (Keeps-if settings.enforce_maintenance _ _
            (λ _. Keeps-bind _ _ (admit-Keeps c t r) (λ id. Keeps-pure _)) (λ _. Keeps-pure none))
          λ o.
            Keeps-bind _ _ (Keeps-attempt _ (k _))
              λ result. Keeps-bind _ _ (release_admission-Keeps o) (λ _. Keeps-lift result)

    pub with_registered_service_lock-Keeps :
        {A : Type 0} (c service : String) (fn : Option AdmissionScope → M A)
        → ((scope : Option AdmissionScope) → Keeps (Holds Q) (fn scope))
        → Keeps (Holds Q) (with_registered_service_lock env settings c service fn)
    unfolding with_registered_service_lock
    with_registered_service_lock-Keeps c service fn k =
        Keeps-bind _ _ (assert_registered-Keeps c)
          λ _. with_service_lock-Keeps env _ _ _ (with_admission-Keeps c _ _ fn k)

    pub with_registered_node_and_service_locks-Keeps :
        {A : Type 0} (c node : String) (services : List String) (fn : Option AdmissionScope → M A)
        → ((scope : Option AdmissionScope) → Keeps (Holds Q) (fn scope))
        → Keeps (Holds Q) (with_registered_node_and_service_locks env settings c node services fn)
    unfolding with_registered_node_and_service_locks with_node_and_service_locks
    with_registered_node_and_service_locks-Keeps c node services fn k =
        Keeps-bind _ _ (assert_registered-Keeps c)
          λ _. with_resource_locks-Keeps env _ _ (with_admission-Keeps c _ _ fn k)
