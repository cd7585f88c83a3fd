-- ===== src/Maintenance/Evidence/Barriers.antt =====
-- apps/api/src/clusters/cluster-maintenance.repository.ts: the barriers of the agents that commitClosed
-- compares with the managers expected.
use Prim.Native.Nat.{Ordering}
use Prim.Native.String.{compare}
use docklane.Prelude.{
  ℕ, ◌≡◌, ◌≢◌, refl, subst, if◌then◌else◌, String, String-eq, ℕ-eq, true, false, ◌==◌, ◌⊎◌, inl,
  inr, List, [], ◌∷◌, map, keep, All, Bool-cases, eq_iff, arith,
}
use docklane.Store.{Db}
use docklane.Maintenance.{BarrierState, AgentBarrier}
use docklane.Maintenance.Repository.{
  acks_differ, is_acknowledged, find_barriers, order_by_agent, insert_by_agent,
}

abbrev pub barrier_of : AgentBarrier → String × ℕ × BarrierState
barrier_of b = (b.agent_id, b.generation, b.state)

is_acknowledged-eq : (s : BarrierState) → is_acknowledged s ≡ true → s ≡ BarrierState.acknowledged
is_acknowledged-eq BarrierState.acknowledged h = refl
is_acknowledged-eq BarrierState.pending h = cc

-- Every manager, once and in order, acknowledged the generation, and no other agent has a row.
pub acks-equal :
    (acks : List AgentBarrier) (ids : List String) (g : ℕ)
    → acks_differ acks ids g ≡ false
    → map barrier_of acks ≡ map (λ id. (id, g, BarrierState.acknowledged)) ids
unfolding acks_differ
acks-equal [] [] g h = refl
acks-equal [] (x ∷ ids) g h = cc
acks-equal (a ∷ acks) [] g h = cc
acks-equal (a ∷ acks) (x ∷ ids) g h =
    let who : a.agent_id ≡ x = ground (arith, eq_iff a.agent_id x) in
    let at : a.generation ≡ g = ground arith in
    let done : a.state ≡ BarrierState.acknowledged = is_acknowledged-eq a.state (ground arith) in
    let rest = acks-equal acks ids g (ground arith) in cc

-- A barrier of the cluster is ACKNOWLEDGED at the generation.
abbrev pub IsBlocked : String → ℕ → AgentBarrier → Type 0
IsBlocked c g b = (b.cluster_id ≢ c) ⊎ ((b.generation ≡ g) × (b.state ≡ BarrierState.acknowledged))

abbrev Acknowledges : ℕ → AgentBarrier → Type 0
Acknowledges g b = (b.generation ≡ g) × (b.state ≡ BarrierState.acknowledged)

each-Acknowledges :
    (acks : List AgentBarrier) (ids : List String) (g : ℕ)
    → map barrier_of acks ≡ map (λ id. (id, g, BarrierState.acknowledged)) ids
    → All (Acknowledges g) acks
each-Acknowledges [] ids g h = tt
each-Acknowledges (a ∷ acks) [] g h = cc
each-Acknowledges (a ∷ acks) (id ∷ ids) g h = ((cc, cc), each-Acknowledges acks ids g cc)

module _ (P : AgentBarrier → Type 0) where
  inserted :
      (o : Ordering) (x y : AgentBarrier) (ys : List AgentBarrier)
      → All P (elim o [ Ordering.gt ↦ y ∷ insert_by_agent x ys | _ ↦ x ∷ y ∷ ys ])
      → (All P (insert_by_agent x ys) → P x × All P ys)
      → P x × All P (y ∷ ys)
  inserted Ordering.gt x y ys (h, rest) k = let (p, q) = k rest in (p, (h, q))
  inserted Ordering.lt x y ys h k = h
  inserted Ordering.eq x y ys h k = h

  All-insert_by_agent :
      (x : AgentBarrier) (ys : List AgentBarrier) → All P (insert_by_agent x ys) → P x × All P ys
  unfolding insert_by_agent
  All-insert_by_agent x [] h = h
  All-insert_by_agent x (y ∷ ys) h =
      inserted (compare x.agent_id y.agent_id) x y ys h (All-insert_by_agent x ys)

  All-order_by_agent : (xs : List AgentBarrier) → All P (order_by_agent xs) → All P xs
  unfolding order_by_agent
  All-order_by_agent [] h = tt
  All-order_by_agent (x ∷ xs) h =
      let (p, q) = All-insert_by_agent x (order_by_agent xs) h in (p, All-order_by_agent xs q)

kept-IsBlocked :
    (c : String) (g : ℕ) (rows : List AgentBarrier)
    → All (Acknowledges g) (keep (λ b. b.cluster_id == c) rows)
    → All (IsBlocked c g) rows
unfolding keep
kept-IsBlocked c g [] h = tt
kept-IsBlocked c g (b ∷ rows) h = elim (Bool-cases (b.cluster_id == c)) [
  | inl e ↦
      let here =
        subst
          (λ t. All (Acknowledges g) (
            if t
            then b ∷ keep (λ b. b.cluster_id == c) rows
            else keep (λ b. b.cluster_id == c) rows))
          e h in
      (inr here.0, kept-IsBlocked c g rows here.1)
  | inr e ↦
      let rest =
        subst
          (λ t. All (Acknowledges g) (
            if t
            then b ∷ keep (λ b. b.cluster_id == c) rows
            else keep (λ b. b.cluster_id == c) rows))
          e h in
      (inl (λ f. let hit = (eq_iff b.cluster_id c).1 f in cc), kept-IsBlocked c g rows rest)
]

pub find_barriers-IsBlocked :
    (c : String) (g : ℕ) (ids : List String) (db : Db)
    → map barrier_of (find_barriers c db) ≡ map (λ id. (id, g, BarrierState.acknowledged)) ids
    → All (IsBlocked c g) db.agent_barriers
unfolding find_barriers
find_barriers-IsBlocked c g ids db h = kept-IsBlocked c g db.agent_barriers (
    All-order_by_agent (Acknowledges g) (keep (λ b. b.cluster_id == c) db.agent_barriers)
      (each-Acknowledges _ ids g h))
