-- ===== src/Maintenance/Evidence/Unresolved.antt =====
-- apps/api/src/clusters/cluster-maintenance.repository.ts: what the three counts of commitClosed leave
-- out where they are zero.
use docklane.Prelude.{
  ◌≡◌, ◌≢◌, refl, ap, eq_iff, String, String-eq, Bool, true, false, ◌==◌, ◌&&◌, not, ◌⊎◌, inl, inr,
  List, [], ◌∷◌, none, some, find, keep, length, All, All-map, Bool-cases, arith,
}
use docklane.Store.{OperationStatus, OperationRecord, NodeOperationRecord, Db, is_unresolved}
use docklane.Maintenance.{
  MaintenanceDispatch, ActiveAdmission, DispatchPhase, EvidenceType, EvidenceResolution,
}
use docklane.Maintenance.Statements.{
  count_active, count_operations, count_dispatches, is_resolved, is_uncertain, evidence_eq,
}

-- No evidence was recorded that resolves the row.
abbrev pub HasNoEvidence : EvidenceType → String → String → List EvidenceResolution → Type 0
HasNoEvidence type c id rows =
    All (λ r. ¬ ((r.cluster_id ≡ c) × (r.evidence_type ≡ type) × (r.evidence_id ≡ id))) rows

-- A dispatch of the cluster that may be under way: it is PREPARED, SENDING or UNCERTAIN, and no
-- evidence was recorded that resolves it.
pub record InFlight (c : String) (db : Db) (d : MaintenanceDispatch) : Type 0 where
  pub cluster : d.cluster_id ≡ c
  pub phase :
      (d.phase ≡ DispatchPhase.prepared)
      ⊎ ((d.phase ≡ DispatchPhase.sending) ⊎ (d.phase ≡ DispatchPhase.uncertain))
  pub unresolved : HasNoEvidence EvidenceType.dispatch c d.id db.evidence_resolutions

-- An admission of the cluster that no evidence resolves.
pub record Lasting (c : String) (db : Db) (a : ActiveAdmission) : Type 0 where
  pub cluster : a.cluster_id ≡ c
  pub unresolved : HasNoEvidence EvidenceType.admission c a.id db.evidence_resolutions

-- An operation of the cluster that has neither succeeded nor failed.
abbrev pub HasNotEnded : String → String → OperationStatus → Type 0
HasNotEnded c cluster_id status =
    (cluster_id ≡ c) × (status ≢ OperationStatus.success) × (status ≢ OperationStatus.failed)

counted_none :
    {A : Type 0} (p : A → Bool) (xs : List A) → length (keep p xs) ≡ 0 → All (λ x. p x ≡ false) xs
unfolding keep
counted_none p [] h = tt
counted_none p (x ∷ xs) h = elim (Bool-cases (p x)) [
  | inl e ↦ absurd (ground (arith, e))
  | inr e ↦ (e, counted_none p xs (ground (arith, e)))
]

uncertain_phase :
    (phase : DispatchPhase)
    → (phase ≡ DispatchPhase.prepared)
      ⊎ ((phase ≡ DispatchPhase.sending) ⊎ (phase ≡ DispatchPhase.uncertain))
    → is_uncertain phase ≡ true
uncertain_phase phase (inl e) = ap is_uncertain e
uncertain_phase phase (inr (inl e)) = ap is_uncertain e
uncertain_phase phase (inr (inr e)) = ap is_uncertain e

evidence_eq-eq : (s t : EvidenceType) → evidence_eq s t ≡ true → s ≡ t
evidence_eq-eq EvidenceType.dispatch EvidenceType.dispatch h = refl
evidence_eq-eq EvidenceType.admission EvidenceType.admission h = refl
evidence_eq-eq EvidenceType.dispatch EvidenceType.admission h = cc
evidence_eq-eq EvidenceType.admission EvidenceType.dispatch h = cc

not_found :
    (type : EvidenceType) (c id : String) (rows : List EvidenceResolution)
    → HasNoEvidence type c id rows
    → elim (find
        (λ r. r.cluster_id == c && evidence_eq r.evidence_type type && r.evidence_id == id)
        rows) [ none ↦ false | some _ ↦ true ]
      ≡ false
unfolding find
not_found type c id [] h = refl
not_found type c id (r ∷ rows) (n, h) =
    elim (Bool-cases
      (r.cluster_id == c && evidence_eq r.evidence_type type && r.evidence_id == id)) [
        | inl e ↦ absurd (
            n (
              (eq_iff r.cluster_id c).0 (ground arith),
              evidence_eq-eq r.evidence_type type (ground arith),
              (eq_iff r.evidence_id id).0 (ground arith),
            ))
        | inr e ↦ rw e (not_found type c id rows h)
      ]

not_resolved :
    (type : EvidenceType) (c id : String) (db : Db)
    → HasNoEvidence type c id db.evidence_resolutions
    → is_resolved type c id db ≡ false
unfolding is_resolved
not_resolved type c id db h = not_found type c id db.evidence_resolutions h

not-InFlight :
    (c : String) (db : Db) (d : MaintenanceDispatch)
    → (d.cluster_id == c
        && is_uncertain d.phase
        && not (is_resolved EvidenceType.dispatch c d.id db))
      ≡ false
    → ¬ InFlight c db d
not-InFlight c db d h f =
    let mine = (eq_iff d.cluster_id c).1 f.cluster in
    let open_ = uncertain_phase d.phase f.phase in
    let none_ = not_resolved EvidenceType.dispatch c d.id db f.unresolved in ground arith

not-Lasting :
    (c : String) (db : Db) (a : ActiveAdmission)
    → (a.cluster_id == c && not (is_resolved EvidenceType.admission c a.id db)) ≡ false
    → ¬ Lasting c db a
not-Lasting c db a h f =
    let mine = (eq_iff a.cluster_id c).1 f.cluster in
    let none_ = not_resolved EvidenceType.admission c a.id db f.unresolved in ground arith

unresolved_status :
    (status : OperationStatus)
    → status ≢ OperationStatus.success
    → status ≢ OperationStatus.failed
    → is_unresolved status ≡ true
unresolved_status OperationStatus.pending n m = refl
unresolved_status OperationStatus.running n m = refl
unresolved_status OperationStatus.verifying n m = refl
unresolved_status OperationStatus.needs_attention n m = refl
unresolved_status OperationStatus.success n m = absurd (n refl)
unresolved_status OperationStatus.failed n m = absurd (m refl)

ended :
    (c cluster_id : String) (status : OperationStatus)
    → (cluster_id == c && is_unresolved status) ≡ false
    → ¬ HasNotEnded c cluster_id status
ended c cluster_id status h (mine, n, m) =
    let hit = (eq_iff cluster_id c).1 mine in
    let lasts = unresolved_status status n m in ground arith

module _ (c : String) (db : Db) where
  pub none-InFlight :
      count_dispatches c db ≡ 0 → All (λ d. ¬ InFlight c db d) db.maintenance_dispatches
  unfolding count_dispatches
  none-InFlight h =
      All-map _ _ db.maintenance_dispatches (not-InFlight c db)
        (counted_none _ db.maintenance_dispatches h)

  pub none-Lasting : count_active c db ≡ 0 → All (λ a. ¬ Lasting c db a) db.active_admissions
  unfolding count_active
  none-Lasting h =
      All-map _ _ db.active_admissions (not-Lasting c db) (counted_none _ db.active_admissions h)

  -- Neither of services nor of nodes.
  pub none-HasNotEnded :
      count_operations c db ≡ 0
      → All (λ (r : OperationRecord). ¬ HasNotEnded c r.cluster_id r.status) db.operations
        × All
            (λ (r : NodeOperationRecord). ¬ HasNotEnded c r.cluster_id r.status)
            db.node_operations
  unfolding count_operations
  none-HasNotEnded h = (
    All-map _ _ db.operations (λ r. ended c r.cluster_id r.status)
        (counted_none _ db.operations (omega arith)),
    All-map _ _ db.node_operations (λ r. ended c r.cluster_id r.status)
        (counted_none _ db.node_operations (omega arith)),
  )
