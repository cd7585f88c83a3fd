-- ===== src/Maintenance/Cycle.antt =====
-- The maintenance of a cluster as one cycle: OPEN, CLOSING, CLOSED, RECONCILING and OPEN again, with a
-- generation that counts the changes. It is what ClusterMaintenanceRepository promises of its row.
use docklane.Prelude.{
  ℕ, zero, suc, subst, ◌≤◌, ◌≡◌, refl, ap, sym, String, Option, none, some, arith,
}
use mathlib.Core.Option
use docklane.Store.{Db}
use docklane.Maintenance.{MaintenanceRecord, MaintenanceState, opened, closing, closed, reconciling}
use docklane.Maintenance.Statements.{find_state}

-- No row, or the state and the generation of the row.
abbrev pub Point : Type 0
Point = Option (MaintenanceState × ℕ)

abbrev pub point_of : Option MaintenanceRecord → Point
point_of o = Option.map (λ r. (r.state, r.generation)) o

abbrev pub point : String → Db → Point
unfolding find_state
point cluster_id db = point_of (find_state cluster_id db)

abbrev pub following : MaintenanceState → MaintenanceState
following opened = closing
following closing = closed
following closed = reconciling
following reconciling = opened

pub data Step (p q : Point) : Type 0 where
  initialized : p ≡ none → q ≡ some (opened, 1) → Step p q
  advanced :
      (s : MaintenanceState) (n : ℕ) → p ≡ some (s, n) → q ≡ some (following s, suc n) → Step p q

pub data Reaches (p : Point) : Point → Type 0 where
  here : Reaches p p
  step : {q r : Point} → Reaches p q → Step q r → Reaches p r

-- The state that a generation has, when the row began OPEN at generation 1.
unfoldable pub state_at : ℕ → MaintenanceState
state_at zero = reconciling
state_at (suc n) = following (state_at n)

abbrev pub OnCycle : Point → Type 0
unfolding state_at
OnCycle none = Unit
OnCycle (some (s, n)) = s ≡ state_at n

abbrev pub generation : Point → ℕ
generation none = 0
generation (some (s, n)) = n

Step-OnCycle : (p q : Point) → Step p q → OnCycle p → OnCycle q
unfolding state_at
Step-OnCycle p q (initialized e f) c = subst OnCycle (sym f) refl
Step-OnCycle p q (advanced s n e f) c = subst OnCycle (sym f) (ap following (subst OnCycle e c))

-- The generation tells the state.
pub Reaches-OnCycle : (p q : Point) → Reaches p q → OnCycle p → OnCycle q
Reaches-OnCycle p _ here c = c
Reaches-OnCycle p r (step {q} t s) c = Step-OnCycle q r s (Reaches-OnCycle p q t c)

Step-generation : (p q : Point) → Step p q → generation q ≡ suc (generation p)
Step-generation p q (initialized e f) = rw (e, f) refl
Step-generation p q (advanced s n e f) = rw (e, f) refl

-- No change is lost and none is undone.
pub Reaches-generation :
    (p q : Point)
    → Reaches p q
    → (generation p ≤ generation q) × (generation p ≡ generation q → p ≡ q)
Reaches-generation p _ here = (omega arith, λ e. refl)
Reaches-generation p r (step {q} t s) =
    let (le, same) = Reaches-generation p q t in
    let e = Step-generation q r s in (omega arith, λ f. absurd (omega arith))
