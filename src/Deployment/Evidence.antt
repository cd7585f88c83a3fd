-- ===== src/Deployment/Evidence.antt =====
-- apps/api/src/deployments/deployment.service.ts: what stands behind a deployment that
-- verifyAndComplete makes a SUCCESS.
pub mod Writes
pub mod Success
pub mod RolledBack
use docklane.Prelude.{
  ℕ, ◌≡◌, refl, ap, sym, ◌∙◌, String, Bool, true, false, List, [], ◌∷◌, Option, none, some, find,
  ◌==◌, String-eq, if◌then◌else◌, arith, some_inj, subst, Option-cases, inl, inr,
}
use mathlib.Core.Option
use docklane.Store.{DeploymentStatus, DeploymentRecord, OperationRecord, Db}
use docklane.Store.Deployments
use docklane.Store.Deployments.{find_deployment, update_deployments}
use docklane.Exec.{Dispatch, Requests}

-- A row whose status has reached its end has `E` behind it.
abbrev pub Backed : (DeploymentStatus → Bool) → Type 0 → String → Requests → Db → Type 0
Backed reached E id l db =
    (d : DeploymentRecord) → find_deployment id db ≡ some d → reached d.status ≡ true → E

find-update_deployments :
    (id id' : String) (f : DeploymentRecord → DeploymentRecord) (ds : List DeploymentRecord)
    → ((d : DeploymentRecord) → (f d).id ≡ d.id)
    → find (λ d. d.id == id) (update_deployments id' f ds)
      ≡ Option.map (λ d. if d.id == id' then f d else d) (find (λ d. d.id == id) ds)
unfolding find update_deployments
find-update_deployments id id' f [] same = refl
find-update_deployments id id' f (d ∷ ds) same =
    ground (arith, same d, find-update_deployments id id' f ds same)

updated-Backed :
    (reached : DeploymentStatus → Bool) {E : Type 0} (b : Bool)
    (f : DeploymentRecord → DeploymentRecord) (old new : DeploymentRecord)
    → reached (f old).status ≡ false
    → (if b then f old else old) ≡ new
    → (reached old.status ≡ true → E)
    → reached new.status ≡ true
    → E
updated-Backed reached true f old new failing e back h = cc
updated-Backed reached false f old new failing e back h = back (ap (λ d. reached d.status) e ∙ h)

found-Backed :
    (reached : DeploymentStatus → Bool) {E : Type 0} (id' : String)
    (f : DeploymentRecord → DeploymentRecord) (found : Option DeploymentRecord)
    (new : DeploymentRecord)
    → ((d : DeploymentRecord) → reached (f d).status ≡ false)
    → Option.map (λ d. if d.id == id' then f d else d) found ≡ some new
    → ((d : DeploymentRecord) → found ≡ some d → reached d.status ≡ true → E)
    → reached new.status ≡ true
    → E
found-Backed reached id' f none new failing e back h = cc
found-Backed reached id' f (some old) new failing e back h =
    updated-Backed reached (old.id == id') f old new (failing old) (some_inj e) (back old refl) h

-- Any update to another status keeps that.
pub update-Backed :
    (reached : DeploymentStatus → Bool) {E : Type 0} (id id' : String)
    (f : DeploymentRecord → DeploymentRecord) (l : Requests) (db : Db)
    → ((d : DeploymentRecord) → (f d).id ≡ d.id)
    → ((d : DeploymentRecord) → reached (f d).status ≡ false)
    → Backed reached E id l db
    → Backed reached E id l (record db { deployments = update_deployments id' f db.deployments })
unfolding find_deployment
update-Backed reached id id' f l db same failing back new e h =
    found-Backed reached id' f (find (λ d. d.id == id) db.deployments) new failing
      (sym (find-update_deployments id id' f db.deployments same) ∙ e) back h
