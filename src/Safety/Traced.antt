-- ===== src/Safety/Traced.antt =====
-- apps/api/src/operations/mutation.service.ts and apps/api/src/operations/node-mutation.service.ts:
-- what stands in the tables of each request that was made.
use docklane.Prelude.{
  ◌≡◌, ◌≢◌, sym, String, [], ◌∷◌, map, All, NoRepeats, All-append, All-map, NoRepeats-map_append,
  none, some, subst,
}
use docklane.Store.{Db}
use docklane.Store.Operations.{find_operation}
use docklane.Store.NodeOperations
use docklane.Exec.{Dispatch, NodeDispatch, Requests, requests, World}
use docklane.Exec.Atomic.{durable, Holds-durable}
use docklane.Exec.Keeps.Tables.{Holds}
use docklane.Traces.{
  Stable, Recorded, Recorded-Stable, Recorded-create, Recorded-create_node, NodeRecorded,
  NodeRecorded-Stable, NodeRecorded-create, NodeRecorded-create_node, Admits,
}
use docklane.Safety.{Runs, Runs-Holds}

-- Each request stands in the table of its kind, and no operation made two.
pub record Traced (l : Requests) (db : Db) : Type 0 where
  pub recorded : All (λ d. Recorded d db) l.services
  pub once : NoRepeats (map (λ d. d.operation_id) l.services)
  pub nodes_recorded : All (λ d. NodeRecorded d db) l.nodes
  pub nodes_once : NoRepeats (map (λ d. d.operation_id) l.nodes)

found_or_new :
    (d : Dispatch) (id : String) (db : Db)
    → Recorded d db
    → find_operation id db ≡ none
    → d.operation_id ≢ id
found_or_new d id db h absent e =
    let found = subst (λ i. find_operation i db ≡ some h.row) e h.found in cc

node_found_or_new :
    (d : NodeDispatch) (id : String) (db : Db)
    → NodeRecorded d db
    → NodeOperations.find_operation id db ≡ none
    → d.operation_id ≢ id
node_found_or_new d id db h absent e =
    let found = subst (λ i. NodeOperations.find_operation i db ≡ some h.row) e h.found in cc

-- The rows of the requests go over to other tables.
moved :
    (l : Requests) (db db' : Db)
    → ((d : Dispatch) → Recorded d db → Recorded d db')
    → ((d : NodeDispatch) → NodeRecorded d db → NodeRecorded d db')
    → Traced l db
    → Traced l db'
moved l db db' f g t = record {
  recorded = All-map _ _ l.services f t.recorded;
  once = t.once;
  nodes_recorded = All-map _ _ l.nodes g t.nodes_recorded;
  nodes_once = t.nodes_once;
}

Traced-Stable : Stable Traced
Traced-Stable = record {
  updates = λ id f same l db.
      moved l db _ (λ d. (Recorded-Stable d).updates id f same l db)
        (λ d. (NodeRecorded-Stable d).updates id f same l db);
  node_updates = λ id f same l db.
      moved l db _ (λ d. (Recorded-Stable d).node_updates id f same l db)
        (λ d. (NodeRecorded-Stable d).node_updates id f same l db);
  audits = λ event l db.
      moved l db _ (λ d. (Recorded-Stable d).audits event l db)
        (λ d. (NodeRecorded-Stable d).audits event l db);
}

Traced-Admits :
    Admits
      (λ id l. All (λ d. d.operation_id ≢ id) l.services)
      (λ id l. All (λ d. d.operation_id ≢ id) l.nodes)
      Traced
Traced-Admits = record {
  stable = Traced-Stable;
  creates = λ n l db db' t e.
      moved l db db' (Recorded-create n db db' e) (NodeRecorded-create n db db' e) t;
  node_creates = λ n l db db' t e.
      moved l db db' (Recorded-create_node n db db' e) (NodeRecorded-create_node n db db' e) t;
  ready =
      λ id l db t absent. All-map _ _ l.services (λ d r. found_or_new d id db r absent) t.recorded;
  node_ready = λ id l db t absent.
      All-map _ _ l.nodes (λ d r. node_found_or_new d id db r absent) t.nodes_recorded;
  sent = λ d l db t r fresh. record {
    recorded = All-append _ l.services (d ∷ []) t.recorded (r, tt);
    once = NoRepeats-map_append (λ x. x.operation_id) l.services d t.once fresh;
    nodes_recorded = t.nodes_recorded;
    nodes_once = t.nodes_once;
  };
  node_sent = λ d l db t r fresh. record {
    recorded = t.recorded;
    once = t.once;
    nodes_recorded = All-append _ l.nodes (d ∷ []) t.nodes_recorded (r, tt);
    nodes_once = NoRepeats-map_append (λ x. x.operation_id) l.nodes d t.nodes_once fresh;
  };
}

-- Nothing was asked yet.
abbrev pub quiet : Requests
quiet = record { services = []; nodes = [] }

quiet-Traced : (db : Db) → Traced quiet db
quiet-Traced db = record { recorded = tt; once = tt; nodes_recorded = tt; nodes_once = tt }

-- Whatever the agent, the server and the clock answer: in any run of scale, restart, drain, activate,
-- labels and the two recoveries that starts with no request made, each request that changes a
-- service has its operation in the tables, in those that the session sees and in those that are
-- committed, with the version, the two hashes and the replicas of the request; each request that
-- changes a node has its node operation there, with the type, the version, the two hashes, the
-- labels and the affected services that the request names; and no two requests of one kind were
-- made for one operation.
pub Runs-Traced :
    (w w' : World)
    → Runs w w'
    → requests w ≡ quiet
    → Traced (requests w') w'.db × Traced (requests w') (durable w')
Runs-Traced w w' run e =
    let held : Holds Traced w' = Runs-Holds Traced-Admits w w' run (record {
      seen = subst (λ l. Traced l w.db) (sym e) (quiet-Traced w.db);
      kept = λ d _. subst (λ l. Traced l d) (sym e) (quiet-Traced d);
    }) in
    (held.seen, Holds-durable w' held)
