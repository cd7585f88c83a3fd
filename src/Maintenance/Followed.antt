-- ===== src/Maintenance/Followed.antt =====
-- apps/api/src/clusters/cluster-maintenance.repository.ts: the row of a cluster follows the cycle.
use docklane.Prelude.{
  ℕ, ◌+◌, ◌≤◌, ◌≡◌, refl, ap, sym, ◌∙◌, subst, String, String-eq, ℕ-eq, Bool, true, false, ◌==◌,
  Option, none, some, arith, find-update_where, find-append, find-append_found, update_where, find,
  if◌then◌else◌, Option-cases, inl, inr, List, [], ◌∷◌, ◌++◌,
}
use mathlib.Core.Option
use docklane.Store.{Db}
use docklane.Exec.{ok, World, Requests}
use docklane.Exec.Atomic.{durable, Holds-durable}
use docklane.Exec.Keeps.Tables.{Holds}
use docklane.Maintenance.{MaintenanceState, opened, closing, closed, reconciling, MaintenanceRecord}
use docklane.Maintenance.Statements.{
  find_state, set_state, insert_open, is_at, advance, state_eq, retake, expire,
}
use docklane.Maintenance.Repository.{allowed}
use docklane.Maintenance.Journal.{link_admission, promote, change_phase}
use docklane.Maintenance.Admission.{delete_admission}
use docklane.Maintenance.Cycle.{
  point_of, Point, point, following, initialized, advanced, Reaches, here, step, OnCycle,
  generation, Reaches-OnCycle, Reaches-generation,
}
use docklane.Store.Operations.{audit}
use docklane.Maintenance.Writes.{
  ok_second, insert_open-inv, insert_lease-inv, insert_dispatch-inv, insert_admission-inv,
}
use docklane.Maintenance.Keeps.{Stable}
use docklane.Maintenance.Runs.{Runs, Runs-Holds}

allowed-following : (s t : MaintenanceState) → allowed s t ≡ true → t ≡ following s
allowed-following opened opened h = cc
allowed-following opened closing h = refl
allowed-following opened closed h = cc
allowed-following opened reconciling h = cc
allowed-following closing opened h = cc
allowed-following closing closing h = cc
allowed-following closing closed h = refl
allowed-following closing reconciling h = cc
allowed-following closed opened h = cc
allowed-following closed closing h = cc
allowed-following closed closed h = cc
allowed-following closed reconciling h = refl
allowed-following reconciling opened h = refl
allowed-following reconciling closing h = cc
allowed-following reconciling closed h = cc
allowed-following reconciling reconciling h = cc

pub state_eq-eq : (s t : MaintenanceState) → state_eq s t ≡ true → s ≡ t
state_eq-eq opened opened h = refl
state_eq-eq opened closing h = cc
state_eq-eq opened closed h = cc
state_eq-eq opened reconciling h = cc
state_eq-eq closing opened h = cc
state_eq-eq closing closing h = refl
state_eq-eq closing closed h = cc
state_eq-eq closing reconciling h = cc
state_eq-eq closed opened h = cc
state_eq-eq closed closing h = cc
state_eq-eq closed closed h = refl
state_eq-eq closed reconciling h = cc
state_eq-eq reconciling opened h = cc
state_eq-eq reconciling closing h = cc
state_eq-eq reconciling closed h = cc
state_eq-eq reconciling reconciling h = refl

changed_row :
    (p : Point) (c : String) (s : MaintenanceState) (g : ℕ) (t : MaintenanceState) (a x : String)
    (now : ℕ) (r : MaintenanceRecord) (b : Bool)
    → is_at c s g r ≡ b
    → allowed s t ≡ true
    → Reaches p (some (r.state, r.generation))
    → Reaches p (point_of (some (if b then advance t a x now r else r)))
changed_row p c s g t a x now r false e h k = k
changed_row p c s g t a x now r true e h k =
    let same : state_eq r.state s ≡ true = ground arith in
    step k (
      advanced r.state r.generation refl (
        ap (λ u. some (u, r.generation + 1))
          (allowed-following s t h ∙ ap following (sym (state_eq-eq r.state s same)))
        ∙ ap (λ n. some (following r.state, n)) (omega arith)))

changed_point :
    (p : Point) (c : String) (s : MaintenanceState) (g : ℕ) (t : MaintenanceState) (a x : String)
    (now : ℕ) (o : Option MaintenanceRecord)
    → allowed s t ≡ true
    → Reaches p (point_of o)
    → Reaches p (point_of (Option.map (λ r. if is_at c s g r then advance t a x now r else r) o))
changed_point p c s g t a x now none h k = k
changed_point p c s g t a x now (some r) h k =
    changed_row p c s g t a x now r (is_at c s g r) refl h k

module _ (cluster : String) (p : Point) where
  abbrev Followed : Requests → Db → Type 0
  Followed l db = Reaches p (point_of (find_state cluster db))

  advances-Followed :
      (c : String) (s : MaintenanceState) (g : ℕ) (t : MaintenanceState) (a x : String) (now : ℕ)
      (l : Requests) (db : Db) (n : ℕ) (db' : Db)
      → allowed s t ≡ true
      → Followed l db
      → set_state c s g t a x now db ≡ ok (n, db')
      → Followed l db'
  unfolding set_state find_state
  advances-Followed c s g t a x now l db n db' h k e =
      let rows : db'.maintenance_states
          ≡ update_where (is_at c s g) (advance t a x now) db.maintenance_states =
        cc in
      subst (λ rows. Reaches p (point_of (find (λ r. r.cluster_id == cluster) rows))) (sym rows)
        (subst (λ o. Reaches p (point_of o))
          (sym (
            find-update_where (is_at c s g) (λ r. r.cluster_id == cluster) (advance t a x now)
              (λ r. refl) db.maintenance_states))
          (changed_point p c s g t a x now (find_state cluster db) h k))

  new_point :
      (r : MaintenanceRecord) (b : Bool)
      → r.state ≡ opened
      → r.generation ≡ 1
      → Reaches p none
      → Reaches p (point_of (if b then some r else none))
  new_point r true s g k =
      step k (initialized refl (ap (λ u. some (u, r.generation)) s ∙ ap (λ n. some (opened, n)) g))
  new_point r false s g k = k

  opened_row :
      (rows : List MaintenanceRecord) (r : MaintenanceRecord)
      → r.state ≡ opened
      → r.generation ≡ 1
      → Reaches p (point_of (find (λ y. y.cluster_id == cluster) rows))
      → Reaches p (point_of (find (λ y. y.cluster_id == cluster) (rows ++ r ∷ [])))
  opened_row rows r s g k = elim (Option-cases (find (λ y. y.cluster_id == cluster) rows)) [
    | inl e ↦
        subst (λ o. Reaches p (point_of o))
          (sym (find-append (λ y. y.cluster_id == cluster) rows r e))
          (new_point r (r.cluster_id == cluster) s g (subst (λ o. Reaches p (point_of o)) e k))
    | inr (y, f) ↦
        subst (λ o. Reaches p (point_of o))
          (sym (find-append_found (λ y. y.cluster_id == cluster) rows r y f))
          (subst (λ o. Reaches p (point_of o)) f k)
  ]

  opens-Followed :
      (c a x : String) (now : ℕ) (l : Requests) (db db' : Db)
      → Followed l db
      → insert_open c a x now db ≡ some db'
      → Followed l db'
  unfolding find_state
  opens-Followed c a x now l db db' k h =
      subst (Followed l) (sym (insert_open-inv c a x now db db' h).1)
        (opened_row db.maintenance_states _ refl refl k)

  Followed-Stable : Stable Followed
  unfolding find_state retake expire link_admission promote change_phase audit delete_admission
  Followed-Stable = record {
    advances = advances-Followed;
    opens = opens-Followed;
    audits = λ e l db q. q;
    retakes = λ c h row ttl now l db n db' f q e. subst (Followed l) (sym (ok_second e)) q;
    leases = λ c h ttl now l db db' q e.
        subst (Followed l) (sym (insert_lease-inv c h ttl now db db' e).1) q;
    expires = λ x now l db n db' q e. subst (Followed l) (sym (ok_second e)) q;
    links = λ s c o l db n db' q e. subst (Followed l) (sym (ok_second e)) q;
    prepares = λ d l db n db' f q e. subst (Followed l) (sym (insert_dispatch-inv d db n db' e)) q;
    promotes = λ i c g a o l db n db' q e. subst (Followed l) (sym (ok_second e)) q;
    changes = λ i from to l db n db' f q e. subst (Followed l) (sym (ok_second e)) q;
    admits = λ a l db n db' q e. subst (Followed l) (sym (insert_admission-inv a db n db' e).1) q;
    deletes = λ i l db q. q;
    sends = λ d l db q. q;
    node_sends = λ d l db q. q;
  }

Runs-Holds_point :
    (cluster : String) (w w' : World)
    → w.saved ≡ none
    → Runs w w'
    → Holds (Followed cluster (point cluster w.db)) w'
unfolding find_state
Runs-Holds_point cluster w w' closed_ r =
    Runs-Holds (Followed-Stable cluster (point cluster w.db))
      (record { seen = here; kept = λ d e. cc }) r

-- The same of the tables as the session sees them.
pub Runs-Followed_seen :
    (cluster : String) (w w' : World)
    → w.saved ≡ none
    → Runs w w'
    → Reaches (point cluster w.db) (point cluster w'.db)
unfolding find_state
Runs-Followed_seen cluster w w' closed_ r = (Runs-Holds_point cluster w w' closed_ r).seen

-- Whatever operations of the maintenance run, each with any answers of the agent, the server and the
-- clock, the committed row of a cluster has gone through whole steps of the cycle only: it was
-- initialized OPEN at generation 1, or went on from one state to the next with its generation raised
-- by one, any number of times.
pub Runs-Followed :
    (cluster : String) (w w' : World)
    → w.saved ≡ none
    → Runs w w'
    → Reaches (point cluster w.db) (point cluster (durable w'))
unfolding find_state
Runs-Followed cluster w w' closed_ r = Holds-durable w' (Runs-Holds_point cluster w w' closed_ r)

-- Whatever operations of the maintenance run, the generation of a cluster does not fall, and where it
-- is the same as before, so is the state.
pub Runs-generation :
    (cluster : String) (w w' : World)
    → w.saved ≡ none
    → Runs w w'
    → (generation (point cluster w.db) ≤ generation (point cluster (durable w')))
      × (generation (point cluster w.db) ≡ generation (point cluster (durable w'))
          → point cluster w.db ≡ point cluster (durable w'))
Runs-generation cluster w w' closed_ r =
    Reaches-generation _ _ (Runs-Followed cluster w w' closed_ r)

-- Whatever operations of the maintenance run, beginning where the state of a cluster is the one that
-- its generation has (or where the cluster has no row), the committed state of the cluster is the one
-- that its generation has: OPEN at 1, 5, 9 and so on, CLOSING, CLOSED and RECONCILING after it.
pub Runs-OnCycle :
    (cluster : String) (w w' : World)
    → w.saved ≡ none
    → OnCycle (point cluster w.db)
    → Runs w w'
    → OnCycle (point cluster (durable w'))
Runs-OnCycle cluster w w' closed_ c r = Reaches-OnCycle _ _ (Runs-Followed cluster w w' closed_ r) c
