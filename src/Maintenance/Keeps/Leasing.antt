-- ===== src/Maintenance/Keeps/Leasing.antt =====
-- apps/api/src/clusters/maintenance-control-lease.ts: the lease keeps what its statements keep. It is
-- retaken with the token of the row that the same transaction has read.
use docklane.Prelude.{
  ℕ, ◌+◌, ◌≡◌, refl, ap, sym, subst, String, Bool, Option, none, some, some_inj, leb,
}
use mathlib.Core.Option
use docklane.Store.{Db}
use docklane.Exec.{ok, World, Env, Requests, requests, tick}
use docklane.Exec.Uuid.{random_uuid}
use docklane.Exec.Keeps.{Keeps, Keeps-bind, Keeps-throw_if, Keeps-pure}
use docklane.Exec.Keeps.Tables.{Holds, Holds-insertion, Holds-commit}
use docklane.Exec.Execute.{Holds-execute, Holds-query_now, Holds-guarded_transaction}
use docklane.Exec.Triple.{
  Triple, Triple-bind, Triple-of_Keeps, Triple-given, Triple-query_now, Triple-execute,
  Triple-throw_if, Triple-pure, Keeps-of_Triple,
}
use docklane.Maintenance.{ControlLease, MaintenanceLease}
use docklane.Maintenance.Statements.{find_lease, retake}
use docklane.Maintenance.Lease.{lease_row, take_over, acquire, assert_owner, release}
use docklane.Maintenance.Keeps.{Stable}

-- The row that `lease_row` has read.
pub row_read :
    (o : Option ControlLease) (now : ℕ) (token : ℕ) (expired : Bool)
    → ◌≡◌ {A = Option (ℕ × Bool)}
        (some (token, expired))
        (Option.map (λ r. (r.fence_token, leb r.expires_at now)) o)
    → (r : ControlLease) × (o ≡ some r) × (r.fence_token ≡ token)
row_read none now token expired e = cc
row_read (some r) now token expired e = (r, refl, ap (λ p. p.0) (sym (some_inj e)))

module _ (env : Env) {Q : Requests → Db → Type 0} where
  pub random_uuid-Keeps : Keeps (Holds Q) (random_uuid env)
  unfolding random_uuid
  random_uuid-Keeps = record { at = λ w h. record { seen = h.seen; kept = h.kept } }

  pub assert_owner-Keeps : (x : MaintenanceLease) → Keeps (Holds Q) (assert_owner env x)
  unfolding assert_owner
  assert_owner-Keeps x = Keeps-bind _ _ (Holds-query_now env _) (λ b. Keeps-throw_if _ _)

module _ (env : Env) {Q : Requests → Db → Type 0} (s : Stable Q) where
  pub release-Keeps : (x : MaintenanceLease) → Keeps (Holds Q) (release env x)
  unfolding release
  release-Keeps x =
      Keeps-bind _ _ (Holds-execute env _ (λ now l db n db' q e. s.expires x now l db n db' q e))
        (λ n. Keeps-throw_if _ _)

  -- The row as the transaction has read it, and `Q`.
  abbrev Read : String → Option (ℕ × Bool) → World → Type 0
  Read c row w = (now : ℕ) × (row ≡ lease_row c now w.db) × Holds Q w

  ticked : (w : World) → Holds Q w → Holds Q (tick env w)
  ticked w h = record { seen = h.seen; kept = h.kept }

  retaken :
      (c h : String) (ttl token : ℕ) (expired : Bool) (w : World) (n : ℕ) (db : Db)
      → Read c (some (token, expired)) w
      → retake c h (token + 1) ttl w.now w.db ≡ ok (n, db)
      → Holds Q (record (tick env w) { db = db })
  unfolding lease_row
  retaken c h ttl token expired w n db (now, e, q) f =
      let (r, found, same) = row_read (find_lease c w.db) now token expired e in
      record {
        seen =
            s.retakes c h r ttl w.now (requests w) w.db n db found q.seen
              (subst (λ t. retake c h (t + 1) ttl w.now w.db ≡ ok (n, db)) (sym same) f);
        kept = q.kept;
      }

  take_over-Triple :
      (c h : String) (ttl : ℕ) (row : Option (ℕ × Bool))
      → Triple (Read c row) (take_over env c h ttl row) (λ _. Holds Q) (Holds Q)
  unfolding take_over
  take_over-Triple c h ttl none =
      Triple-given _ (λ w p. p.2)
        (Triple-of_Keeps _ (
          Keeps-bind _ _ (Holds-insertion env _ (λ now l d d' q e. s.leases c h ttl now l d d' q e))
            (λ _. Keeps-pure 1)))
  take_over-Triple c h ttl (some (token, expired)) =
      Triple-bind _ _ (Triple-throw_if _ _ (λ w p. p.2)) λ _.
        Triple-given _ (λ w p. p.1)
          (Triple-bind _ _
            (Triple-execute env {R = λ _. Holds Q} _ (λ w p. ticked w p.2)
              (λ w n db p f. retaken c h ttl token expired w n db p f)
              (λ w n db p f. retaken c h ttl token expired w n db p f))
            (λ n. Triple-pure _ (λ w p. p)))

  pub acquire-Keeps : (c : String) (ttl : ℕ) → Keeps (Holds Q) (acquire env c ttl)
  unfolding acquire
  acquire-Keeps c ttl = Keeps-bind _ _ (Keeps-throw_if _ _) λ _.
      Keeps-bind _ _ (random_uuid-Keeps env) λ holder. Holds-guarded_transaction env _ (
        Keeps-of_Triple _ (
          Triple-bind _ _ (Triple-query_now env _ (λ w h. (ticked w h, ticked w h))) λ row.
            Triple-bind _ _ (take_over-Triple c holder ttl row)
              λ token. Triple-of_Keeps _ (Keeps-bind _ _ (Holds-commit env) (λ _. Keeps-pure _))))
