-- ===== src/Exec/Meets.antt =====
-- What an action makes true, by how it ends: one condition where it returns, one where it throws.
use docklane.Prelude.{ℕ, ◌≡◌, refl, [], ◌∷◌, ◌++◌, Option, none, some, subst, some_inj}
use docklane.Store.{Db}
use docklane.Exec.{
  Fault, undone, lost, Failure, Result, ok, err, World, Env, M, try, continue, handle, fork,
  on_result, ◌>>=◌, Dispatch, insertion, statement, commit, run_statement, settle, tick, raise,
  dispatch, dispatch_node, NodeDispatch, answered, attempt, Requests, requests,
}
use docklane.Exec.Keeps.{Keeps}
use docklane.Exec.Keeps.Tables.{Holds}

abbrev pub After : {A : Type 0} → (R E : World → Type 0) → Result A → World → Type 0
After R E (ok a) w = R w
After R E (err e) w = E w

pub record Meets {A : Type 0} (P : World → Type 0) (m : M A) (R E : World → Type 0) : Type 0 where
  pub at : (w : World) → P w → After R E (m w).0 (m w).1

After-map :
    {A : Type 0} (P R E : World → Type 0) (r : Result A) (w : World)
    → (P w → R w)
    → (P w → E w)
    → P w
    → After R E r w
After-map P R E (ok a) w f g p = f p
After-map P R E (err e) w f g p = g p

After-both : {A : Type 0} (P : World → Type 0) (r : Result A) (w : World) → P w → After P P r w
After-both P (ok a) w p = p
After-both P (err e) w p = p

After-join : {A : Type 0} (P : World → Type 0) (r : Result A) (w : World) → After P P r w → P w
After-join P (ok a) w p = p
After-join P (err e) w p = p

-- What is kept holds however the action ends.
pub Meets-of_Keeps :
    {A : Type 0} {P E : World → Type 0} (m : M A)
    → Keeps P m
    → ((w : World) → P w → E w)
    → Meets P m P E
Meets-of_Keeps {P = P} {E = E} m k weaken = record {
  at = λ w p. After-map P P E (m w).0 (m w).1 (λ q. q) (weaken (m w).1) (k.at w p);
}

pub Keeps-of_Meets : {A : Type 0} {P : World → Type 0} (m : M A) → Meets P m P P → Keeps P m
Keeps-of_Meets {P = P} m k = record { at = λ w p. After-join P (m w).0 (m w).1 (k.at w p) }

module _ {A B : Type 0} {R S E : World → Type 0} where
  After-continue :
      (r : Result A) (f : A → M B) (w : World)
      → ((a : A) → Meets R (f a) S E)
      → After R E r w
      → After S E (continue r f w).0 (continue r f w).1
  After-continue (ok a) f w kf p = (kf a).at w p
  After-continue (err e) f w kf p = p

  pub Meets-bind :
      {P : World → Type 0} (m : M A) (f : A → M B)
      → Meets P m R E
      → ((a : A) → Meets R (f a) S E)
      → Meets P (m >>= f) S E
  unfolding ◌>>=◌
  Meets-bind m f km kf = record { at = λ w p. After-continue (m w).0 f (m w).1 kf (km.at w p) }

module _ {A B : Type 0} {R S E F : World → Type 0} where
  After-fork :
      (r : Result A) (f : A → M B) (h : Failure → M B) (w : World)
      → ((a : A) → Meets R (f a) S F)
      → ((e : Failure) → Meets E (h e) S F)
      → After R E r w
      → After S F (fork r f h w).0 (fork r f h w).1
  After-fork (ok a) f h w kf kh p = (kf a).at w p
  After-fork (err e) f h w kf kh p = (kh e).at w p

  pub Meets-on_result :
      {P : World → Type 0} (m : M A) (f : A → M B) (h : Failure → M B)
      → Meets P m R E
      → ((a : A) → Meets R (f a) S F)
      → ((e : Failure) → Meets E (h e) S F)
      → Meets P (on_result m f h) S F
  unfolding on_result
  Meets-on_result m f h km kf kh = record {
    at = λ w p. After-fork (m w).0 f h (m w).1 kf kh (km.at w p);
  }

module _ {A : Type 0} {R E F : World → Type 0} where
  After-handle :
      (r : Result A) (h : Failure → M A) (w : World)
      → ((e : Failure) → Meets E (h e) R F)
      → After R E r w
      → After R F (handle r h w).0 (handle r h w).1
  After-handle (ok a) h w kh p = p
  After-handle (err e) h w kh p = (kh e).at w p

  pub Meets-try :
      {P : World → Type 0} (m : M A) (h : Failure → M A)
      → Meets P m R E
      → ((e : Failure) → Meets E (h e) R F)
      → Meets P (try m h) R F
  unfolding try
  Meets-try m h km kh = record { at = λ w p. After-handle (m w).0 h (m w).1 kh (km.at w p) }

After-with :
    {A : Type 0} (R E K : World → Type 0) (r : Result A) (w : World)
    → After R E r w
    → K w
    → After R K r w
After-with R E K (ok a) w p k = p
After-with R E K (err e) w p k = k

-- Where it throws, only what is kept matters.
pub Meets-with :
    {A : Type 0} {P R E K : World → Type 0} (m : M A)
    → Meets P m R E
    → Keeps K m
    → Meets (λ w. K w × P w) m R K
Meets-with {R = R} {E = E} {K = K} m km kk = record {
  at = λ w p. After-with R E K (m w).0 (m w).1 (km.at w p.1) (kk.at w p.0);
}

-- An attempt returns, whatever becomes of it.
pub Meets-attempt :
    {A : Type 0} {P E : World → Type 0} (m : M A) → Keeps P m → Meets P (attempt m) P E
unfolding attempt
Meets-attempt m k = record { at = λ w p. k.at w p }

pub Meets-end :
    {A : Type 0} {P R : World → Type 0} (m : M A) → Meets P m R R → (w : World) → P w → R (m w).1
Meets-end {R = R} m k w p = After-join R (m w).0 (m w).1 (k.at w p)

-- An action that always throws.
pub Meets-raise : {A : Type 0} {P R : World → Type 0} (e : Failure) → Meets P (raise {A = A} e) R P
unfolding raise
Meets-raise e = record { at = λ w p. p }

-- The tables as the session sees them.
pub record Seen (S : Requests → Db → Type 0) (w : World) : Type 0 where
  pub view : S (requests w) w.db

module _ (env : Env) {S : Requests → Db → Type 0} where
  run_statement-Seen :
      (fault : Option Fault) (o : Option Db) (w : World)
      → Seen S w
      → ((d : Db) → o ≡ some d → S (requests w) d)
      → Seen S (run_statement env fault o w).1
  run_statement-Seen (some (undone m)) o w p k = p
  run_statement-Seen (some (lost m)) none w p k = p
  run_statement-Seen (some (lost m)) (some d) w p k = record { view = k d refl }
  run_statement-Seen none none w p k = p
  run_statement-Seen none (some d) w p k = record { view = k d refl }

  pub Seen-statement :
      (f : ℕ → Db → Db)
      → ((now : ℕ) (l : Requests) (db : Db) → S l db → S l (f now db))
      → Keeps (Seen S) (statement env f)
  unfolding statement insertion
  Seen-statement f keep = record {
    at = λ w p.
        run_statement-Seen (env.statement_fails w.calls) (some (f w.now w.db)) (tick env w)
          (record { view = p.view })
          (λ d e. subst (S (requests w)) (some_inj e) (keep w.now (requests w) w.db p.view));
  }

  run_statement-Meets :
      (S' : Requests → Db → Type 0) (fault : Option Fault) (o : Option Db) (w : World)
      → Holds S w
      → ((d : Db) → o ≡ some d → S (requests w) d → S' (requests w) d)
      → ((d : Db) → o ≡ some d → S (requests w) d)
      → After
          (λ w. Holds S w × Seen S' w)
          (Holds S)
          (run_statement env fault o w).0
          (run_statement env fault o w).1
  run_statement-Meets S' (some (undone m)) o w h k keep = h
  run_statement-Meets S' (some (lost m)) none w h k keep = h
  run_statement-Meets S' (some (lost m)) (some d) w h k keep = record {
    seen = keep d refl;
    kept = h.kept;
  }
  run_statement-Meets S' none none w h k keep = h
  run_statement-Meets S' none (some d) w h k keep =
      (record { seen = keep d refl; kept = h.kept }, record { view = k d refl (keep d refl) })

  -- An insertion that is not refused also makes `S'` true of the tables that the session sees.
  pub Meets-insertion :
      {S' : Requests → Db → Type 0} (f : ℕ → Db → Option Db)
      → ((now : ℕ) (l : Requests) (d d' : Db) → S l d → f now d ≡ some d' → S l d' × S' l d')
      → Meets (Holds S) (insertion env f) (λ w. Holds S w × Seen S' w) (Holds S)
  unfolding insertion
  Meets-insertion {S' = S'} f gives = record {
    at = λ w h.
        run_statement-Meets S' (env.statement_fails w.calls) (f w.now w.db) (tick env w)
          (record { seen = h.seen; kept = h.kept })
          (λ d e _. (gives w.now (requests w) w.db d h.seen e).1)
          (λ d e. (gives w.now (requests w) w.db d h.seen e).0);
  }

  settle-Meets :
      (fault : Option Fault) (done failed : World)
      → ((d : Db) → done.saved ≡ some d → S (requests done) d)
      → S (requests done) done.db
      → Seen S failed
      → After (Holds S) (Seen S) (settle env fault done failed).0 (settle env fault done failed).1
  settle-Meets none done failed k s t = record { seen = s; kept = k }
  settle-Meets (some (undone m)) done failed k s t = t
  settle-Meets (some (lost m)) done failed k s t = record { view = s }

  -- What the session sees is what is kept, once it is committed.
  pub Meets-commit : Meets (Seen S) (commit env) (Holds S) (Seen S)
  unfolding commit
  Meets-commit = record {
    at = λ w p.
        settle-Meets (env.statement_fails w.calls) (record (tick env w) { saved = none })
          (tick env w) (λ d e. cc) p.view (record { view = p.view });
  }

  pub Meets-dispatch :
      {S' : Requests → Db → Type 0} (d : Dispatch)
      → ((l : Requests) (db : Db) → S l db → S' (record l { services = l.services ++ d ∷ [] }) db)
      → Meets (Holds S) (dispatch env d) (Holds S') (Holds S')
  unfolding dispatch
  Meets-dispatch {S' = S'} d more = record {
    at = λ w h.
        After-both (Holds S') (answered (env.mutate w.calls d))
          (record (tick env w) { dispatched = w.dispatched ++ d ∷ [] })
          (record {
            seen = more (requests w) w.db h.seen;
            kept = λ db e. more (requests w) db (h.kept db e);
          });
  }

  pub Meets-dispatch_node :
      {S' : Requests → Db → Type 0} (d : NodeDispatch)
      → ((l : Requests) (db : Db) → S l db → S' (record l { nodes = l.nodes ++ d ∷ [] }) db)
      → Meets (Holds S) (dispatch_node env d) (Holds S') (Holds S')
  unfolding dispatch_node
  Meets-dispatch_node {S' = S'} d more = record {
    at = λ w h.
        After-both (Holds S') (answered (env.mutate_node w.calls d))
          (record (tick env w) { node_dispatched = w.node_dispatched ++ d ∷ [] })
          (record {
            seen = more (requests w) w.db h.seen;
            kept = λ db e. more (requests w) db (h.kept db e);
          });
  }
