-- ===== src/Maintenance/Fencing.antt =====
-- apps/api/src/clusters/maintenance-control-lease.ts: the fencing token of a cluster.
pub mod Acquired
use docklane.Prelude.{
  ℕ, suc, ◌+◌, ◌≤◌, ◌<◌, ◌≡◌, refl, ap, sym, ◌∙◌, subst, String, String-eq, ℕ-eq, Bool, true, false,
  ◌&&◌, ◌==◌, Option, none, some, arith, find-update_where, find-append, find-append_found,
  find-true, update_where, find, if◌then◌else◌, some_inj, List, [], ◌∷◌, ◌++◌, Option-cases,
  Bool-cases, inl, inr, ltb, eq_iff,
}
use mathlib.Core.Option
use docklane.Store.{Db}
use docklane.Store.Operations.{audit}
use docklane.Exec.{ok, World, Requests}
use docklane.Exec.Atomic.{durable, Holds-durable}
use docklane.Exec.Keeps.Tables.{Holds}
use docklane.Maintenance.{ControlLease, MaintenanceLease}
use docklane.Maintenance.Statements.{
  find_lease, is_held_by, set_state, retake, insert_lease, expire,
}
use docklane.Maintenance.Lease.{owns}
use docklane.Maintenance.Journal.{link_admission, insert_dispatch, promote, change_phase}
use docklane.Maintenance.Admission.{insert_admission, delete_admission}
use docklane.Maintenance.Writes.{
  ok_second, insert_open-inv, insert_lease-inv, insert_dispatch-inv, insert_admission-inv,
}
use docklane.Maintenance.Keeps.{Stable}
use docklane.Maintenance.Runs.{Runs, Runs-Holds}

abbrev pub token_of : Option ControlLease → ℕ
token_of none = 0
token_of (some r) = r.fence_token

-- The fencing token of a cluster, 0 where no lease of it was ever taken.
abbrev pub fence : String → Db → ℕ
fence cluster db = token_of (find_lease cluster db)

module _ (cluster : String) (k : ℕ) where
  abbrev Fenced : Requests → Db → Type 0
  Fenced l db = k ≤ token_of (find_lease cluster db)

  updated :
      (o : Option ControlLease) (b : ControlLease → Bool) (f : ControlLease → ControlLease)
      → ((r : ControlLease) → o ≡ some r → b r ≡ true → r.fence_token ≤ (f r).fence_token)
      → k ≤ token_of o
      → k ≤ token_of (Option.map (λ r. if b r then f r else r) o)
  updated none b f up h = h
  updated (some r) b f up h = elim (Bool-cases (b r)) [
    | inl e ↦ rw e (omega (arith, up r refl e))
    | inr e ↦ rw e h
  ]

  updated_rows :
      (b : ControlLease → Bool) (f : ControlLease → ControlLease) (rows : List ControlLease)
      → ((r : ControlLease) → ((f r).cluster_id == cluster) ≡ (r.cluster_id == cluster))
      → ((r : ControlLease)
          → find (λ y. y.cluster_id == cluster) rows ≡ some r
          → b r ≡ true
          → r.fence_token ≤ (f r).fence_token)
      → k ≤ token_of (find (λ y. y.cluster_id == cluster) rows)
      → k ≤ token_of (find (λ y. y.cluster_id == cluster) (update_where b f rows))
  updated_rows b f rows same up h =
      subst (λ o. k ≤ token_of o)
        (sym (find-update_where b (λ y. y.cluster_id == cluster) f same rows)) (updated _ b f up h)

  added_row :
      (rows : List ControlLease) (r : ControlLease)
      → k ≤ token_of (find (λ y. y.cluster_id == cluster) rows)
      → k ≤ token_of (find (λ y. y.cluster_id == cluster) (rows ++ r ∷ []))
  added_row rows r h = elim (Option-cases (find (λ y. y.cluster_id == cluster) rows)) [
    | inl e ↦ let z : k ≤ 0 = subst (λ o. k ≤ token_of o) e h in omega arith
    | inr (y, f) ↦
        subst (λ o. k ≤ token_of o)
          (sym (find-append_found (λ y. y.cluster_id == cluster) rows r y f))
          (subst (λ o. k ≤ token_of o) f h)
  ]

  same_row :
      (c : String) (rows : List ControlLease) (row r : ControlLease)
      → find (λ y. y.cluster_id == c) rows ≡ some row
      → find (λ y. y.cluster_id == cluster) rows ≡ some r
      → (r.cluster_id == c) ≡ true
      → row ≡ r
  same_row c rows row r e f h =
      let mine : r.cluster_id ≡ cluster =
        (eq_iff r.cluster_id cluster).0 (find-true (λ y. y.cluster_id == cluster) rows r f) in
      let other : r.cluster_id ≡ c = (eq_iff r.cluster_id c).0 h in
      some_inj (sym e ∙ ap (λ x. find (λ y. y.cluster_id == x) rows) (sym other ∙ mine) ∙ f)

  Fenced-Stable : Stable Fenced
  unfolding find_lease set_state retake expire link_admission promote change_phase audit
      delete_admission
  Fenced-Stable = record {
    advances = λ c s g t a x now l db n db' f q e. subst (Fenced l) (sym (ok_second e)) q;
    opens =
        λ c a x now l db db' q h. subst (Fenced l) (sym (insert_open-inv c a x now db db' h).1) q;
    audits = λ e l db q. q;
    retakes = λ c h row ttl now l db n db' f q e. subst (Fenced l) (sym (ok_second e)) (
        updated_rows _ _ db.control_leases (λ r. refl)
          (λ r found hit.
            let same = same_row c db.control_leases row r f found hit in
            subst (λ (x : ControlLease). r.fence_token ≤ x.fence_token + 1) (sym same)
              (omega arith))
          q);
    leases = λ c h ttl now l db db' q e.
        subst (Fenced l) (sym (insert_lease-inv c h ttl now db db' e).1)
          (added_row db.control_leases _ q);
    expires = λ x now l db n db' q e.
        subst (Fenced l) (sym (ok_second e))
          (updated_rows _ _ db.control_leases (λ r. refl) (λ r found hit. omega arith) q);
    links = λ s c o l db n db' q e. subst (Fenced l) (sym (ok_second e)) q;
    prepares = λ d l db n db' f q e. subst (Fenced l) (sym (insert_dispatch-inv d db n db' e)) q;
    promotes = λ i c g a o l db n db' q e. subst (Fenced l) (sym (ok_second e)) q;
    changes = λ i from to l db n db' f q e. subst (Fenced l) (sym (ok_second e)) q;
    admits = λ a l db n db' q e. subst (Fenced l) (sym (insert_admission-inv a db n db' e).1) q;
    deletes = λ i l db q. q;
    sends = λ d l db q. q;
    node_sends = λ d l db q. q;
  }

-- The token of a cluster does not fall.
pub Runs-fence :
    (cluster : String) (w w' : World)
    → w.saved ≡ none
    → Runs w w'
    → fence cluster w.db ≤ fence cluster (durable w')
Runs-fence cluster w w' closed_ r = Holds-durable w' (
    Runs-Holds (Fenced-Stable cluster (fence cluster w.db))
      (record { seen = omega arith; kept = λ d e. cc }) r)

held-token :
    (x : MaintenanceLease) (now : ℕ) (o : Option ControlLease)
    → elim o [ none ↦ false | some r ↦ is_held_by x r && ltb now r.expires_at ] ≡ true
    → x.token ≡ token_of o
held-token x now none h = cc
held-token x now (some r) h = ground arith

pub owned-token :
    (x : MaintenanceLease) (now : ℕ) (db : Db)
    → owns x now db ≡ true
    → x.token ≡ fence x.cluster_id db
unfolding owns
owned-token x now db h = held-token x now (find_lease x.cluster_id db) h
