-- ===== src/Maintenance/Sent.antt =====
-- apps/api/src/clusters/maintenance-dispatch-journal.ts: a mutation is sent at most once, and only
-- while its cluster is OPEN at its generation.
use docklane.Prelude.{
  ◌≡◌, refl, ap, String, String-eq, Bool, true, false, ℕ-eq, ◌⊎◌, inl, inr, Option, none, some, [],
  ◌∷◌, ◌++◌, if◌then◌else◌,
}
use docklane.Exec.{
  Result, ok, err, Failure, World, Env, M, Dispatch, NodeDispatch, Requests, requests, dispatch,
  dispatch_node, answered,
}
use docklane.Exec.Keeps.{Keeps, Keeps-bind, Keeps-try, Keeps-pure}
use docklane.Exec.Triple.{
  Outcome, Triple, Triple-bind, Triple-of_Keeps, Triple-given, Triple-fact, Triple-raise,
}
use docklane.Maintenance.{DispatchPhase}
use docklane.Maintenance.Journal.{
  AdmissionScope, Lineage, open_at, refuse_send, send_recorded, execute_dispatch, is_duplicate,
}
use docklane.Exec.Triple.Branches.{Triple-on_result}
use docklane.Maintenance.Unsent.{
  Both, Made, Ready, transition-Made, recorded-Made, prepare-Ready, begin_send-open,
}

-- The requests became `l1`, with the cluster OPEN at the generation.
abbrev pub BecameOpen : Lineage → Requests → World → World → Type 0
BecameOpen x l1 w w' = (open_at x.cluster_id x.generation w.db ≡ true) × (requests w' ≡ l1)

always : {A : Type 0} (P : World → Type 0) (r : Result A) (w : World) → P w → Outcome (λ _. P) P r w
always P (ok a) w p = p
always P (err e) w p = p

-- An action that makes the requests `l1` of the requests `l0`, however it ends.
abbrev pub Makes : {A : Type 0} → M A → Requests → Requests → Type 0
Makes m l0 l1 = Triple (λ w. requests w ≡ l0) m (λ _ w. requests w ≡ l1) (λ w. requests w ≡ l1)

abbrev pub with_service : Dispatch → Requests → Requests
with_service d l = record l { services = l.services ++ d ∷ [] }

abbrev pub with_node : NodeDispatch → Requests → Requests
with_node d l = record l { nodes = l.nodes ++ d ∷ [] }

pub dispatch-Makes :
    (env : Env) (d : Dispatch) (l0 : Requests) → Makes (dispatch env d) l0 (with_service d l0)
unfolding dispatch
dispatch-Makes env d l0 = record {
  at = λ w p.
      always (λ w. requests w ≡ with_service d l0) (answered (env.mutate w.calls d)) _
        (ap (with_service d) p);
}

pub dispatch_node-Makes :
    (env : Env) (d : NodeDispatch) (l0 : Requests) → Makes (dispatch_node env d) l0 (with_node d l0)
unfolding dispatch_node
dispatch_node-Makes env d l0 = record {
  at = λ w p.
      always (λ w. requests w ≡ with_node d l0) (answered (env.mutate_node w.calls d)) _
        (ap (with_node d) p);
}

module _ (x : Lineage) (l1 : Requests) (w0 : World) where
  abbrev pub Ended : World → Type 0
  Ended w = (requests w ≡ requests w0) ⊎ BecameOpen x l1 w0 w

  sent-Outcome :
      {A : Type 0} (r : Result A) (w : World)
      → open_at x.cluster_id x.generation w0.db ≡ true
      → requests w ≡ l1
      → Outcome (λ _. BecameOpen x l1 w0) Ended r w
  sent-Outcome (ok a) w o p = (o, p)
  sent-Outcome (err e) w o p = inr (o, p)

  -- After the request, no other is made.
  after_send :
      {A : Type 0} (env : Env) (m : M A)
      → open_at x.cluster_id x.generation w0.db ≡ true
      → Keeps (Both env (Made env l1)) m
      → Triple (λ w. requests w ≡ l1) m (λ _. BecameOpen x l1 w0) Ended
  after_send env m o k = record { at = λ w p. sent-Outcome (m w).0 (m w).1 o (k.at w p) }

  if_outcome :
      {A : Type 0} {R : A → World → Type 0} (b : Bool) (m n : M A)
      → Triple (λ w. requests w ≡ (requests w0)) m R Ended
      → Triple (λ w. requests w ≡ (requests w0)) n R Ended
      → Triple (λ w. requests w ≡ (requests w0)) (if b then m else n) R Ended
  if_outcome true m n k l = k
  if_outcome false m n k l = l

  unsent-Outcome :
      {A : Type 0} (r : Result A) (w : World)
      → requests w ≡ (requests w0)
      → Outcome (λ _ w. requests w ≡ (requests w0)) Ended r w
  unsent-Outcome (ok a) w p = p
  unsent-Outcome (err e) w p = inl p

  -- Before the request, none is made, and the error is thrown.
  before_send :
      {A : Type 0} (env : Env) (o : Option String) (e : Failure)
      → Triple {A = A}
          (λ w. requests w ≡ (requests w0))
          (refuse_send env o e)
          (λ _. BecameOpen x l1 w0)
          Ended
  unfolding refuse_send
  before_send env none e = Triple-raise _ (λ w p. inl p)
  before_send env (some id) e = if_outcome (is_duplicate e) _ _ (Triple-raise e (λ w p. inl p)) (
      Triple-bind {R = λ _ w. requests w ≡ (requests w0)} _ _
        (record {
          at = λ w p. unsent-Outcome _ _ (
              (Keeps-try _ _
                  (transition-Made env (requests w0) id DispatchPhase.prepared
                    DispatchPhase.rejected)
                  (λ _. Keeps-pure tt)).at
                w p);
        })
        (λ _. Triple-raise _ (λ w p. inl p)))

  pub execute_dispatch-Ended :
      {A : Type 0} (env : Env) (scope : Option AdmissionScope) (send : M A)
      (definite : Failure → Bool)
      → Makes send (requests w0) l1
      → Triple
          (Both env (Ready env x (requests w0) (open_at x.cluster_id x.generation w0.db)))
          (execute_dispatch env x scope send definite)
          (λ _. BecameOpen x l1 w0)
          Ended
  unfolding execute_dispatch send_recorded
  execute_dispatch-Ended env scope send definite makes =
      Triple-on_result _ _ _ (Triple-of_Keeps _ (prepare-Ready env x (requests w0) _ scope))
        (λ id.
          Triple-on_result _ _ _ (begin_send-open env x (requests w0) _ id)
            (λ _. Triple-fact _ λ o.
              Triple-on_result _ _ _ makes
                (λ a.
                  after_send env _ o
                    (Keeps-bind _ _ (transition-Made env _ id _ _) (λ _. Keeps-pure a)))
                (λ e. after_send env _ o (recorded-Made env _ id _ _ e)))
            (λ e. before_send env (some id) e))
        (λ e. Triple-given _ (λ w p. p.0) (before_send env none e))

-- The request was made, with the cluster OPEN at the generation.
abbrev pub SentOpen : Lineage → Dispatch → World → World → Type 0
SentOpen x d w w' =
    (open_at x.cluster_id x.generation w.db ≡ true) × (w'.dispatched ≡ w.dispatched ++ d ∷ [])

services_of :
    {A : Type 0} (x : Lineage) (d : Dispatch) (w : World) (r : Result A) (w' : World)
    → Outcome
        (λ _. BecameOpen x (with_service d (requests w)) w)
        (Ended x (with_service d (requests w)) w)
        r
        w'
    → Outcome (λ _. SentOpen x d w) (λ w'. (w'.dispatched ≡ w.dispatched) ⊎ SentOpen x d w w') r w'
services_of x d w (ok a) w' p = (p.0, ap (λ (l : Requests). l.services) p.1)
services_of x d w (err e) w' (inl p) = inl (ap (λ (l : Requests). l.services) p)
services_of x d w (err e) w' (inr p) = inr (p.0, ap (λ (l : Requests). l.services) p.1)

-- Whatever the server and the agent answer, `execute` of the journal with a request to the agent has
-- made no request, and has thrown, or it has made that request once, and the cluster was OPEN at the
-- generation of the request.
pub execute_dispatch-SentOpen :
    (env : Env) (x : Lineage) (scope : Option AdmissionScope) (d : Dispatch)
    (definite : Failure → Bool) (w : World)
    → Outcome
        (λ _. SentOpen x d w)
        (λ w'. (w'.dispatched ≡ w.dispatched) ⊎ SentOpen x d w w')
        (execute_dispatch env x scope (dispatch env d) definite w).0
        (execute_dispatch env x scope (dispatch env d) definite w).1
execute_dispatch-SentOpen env x scope d definite w = services_of x d w _ _ (
    (execute_dispatch-Ended x (with_service d (requests w)) w env scope _ definite
        (dispatch-Makes env d (requests w))).at
      w (refl, refl))
