-- ===== src/Exec/Triple/Branches.antt =====
-- A `try` whose outcomes the code goes on to tell apart.
use docklane.Exec.{Result, ok, err, Failure, World, M, on_result, fork}
use docklane.Exec.Triple.{Outcome, Triple}

module _ {A B : Type 0} {R : A → World → Type 0} {S : B → World → Type 0}
    {E F : World → Type 0} where
  fork-Outcome :
      (r : Result A) (f : A → M B) (h : Failure → M B) (w : World)
      → ((a : A) → Triple (R a) (f a) S F)
      → ((e : Failure) → Triple E (h e) S F)
      → Outcome R E r w
      → Outcome S F (fork r f h w).0 (fork r f h w).1
  fork-Outcome (ok a) f h w k l p = (k a).at w p
  fork-Outcome (err e) f h w k l p = (l e).at w p

  pub Triple-on_result :
      {P : World → Type 0} (m : M A) (f : A → M B) (h : Failure → M B)
      → Triple P m R E
      → ((a : A) → Triple (R a) (f a) S F)
      → ((e : Failure) → Triple E (h e) S F)
      → Triple P (on_result m f h) S F
  unfolding on_result
  Triple-on_result m f h k l n = record {
    at = λ w p. fork-Outcome (m w).0 f h (m w).1 l n (k.at w p);
  }
