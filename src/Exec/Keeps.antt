-- ===== src/Exec/Keeps.antt =====
-- What an action keeps true, whether it returns or throws: one rule for each way to build an action.
pub mod Tables
use docklane.Prelude.{ℕ, ◌≡◌, refl, Bool, true, false, if◌then◌else◌}
use docklane.Exec.{
  Failure, Result, ok, err, World, M, pure, raise, try, attempt, lift, continue, handle, ◌>>=◌,
  throw_if, date_now, fork, on_result,
}

pub record Keeps {A : Type 0} (P : World → Type 0) (m : M A) : Type 0 where
  pub at : (w : World) → P w → P (m w).1

pub Keeps-both :
    {A : Type 0} {P R : World → Type 0} (m : M A) → Keeps P m → Keeps R m → Keeps (λ w. P w × R w) m
Keeps-both m k l = record { at = λ w p. (k.at w p.0, l.at w p.1) }

-- `m` can return `a`.
pub record Yields {A : Type 0} (m : M A) (a : A) : Type 0 where
  pub before : World
  pub returned : (m before).0 ≡ ok a

module _ {A : Type 0} {P : World → Type 0} where
  -- A branch may use how its test came out.
  pub Keeps-if :
      (test : Bool) (taken other : M A)
      → (test ≡ true → Keeps P taken)
      → (test ≡ false → Keeps P other)
      → Keeps P (if test then taken else other)
  Keeps-if false taken other ky kn = kn refl
  Keeps-if true taken other ky kn = ky refl

  pub Keeps-lift : (r : Result A) → Keeps P (lift r)
  unfolding lift
  Keeps-lift r = record { at = λ w p. p }

  pub Keeps-raise : (e : Failure) → Keeps P (raise {A = A} e)
  unfolding raise
  Keeps-raise e = record { at = λ w p. p }

  pub Keeps-pure : (a : A) → Keeps P (pure a)
  unfolding pure
  Keeps-pure a = record { at = λ w p. p }

  handle-Keeps :
      (r : Result A) (h : Failure → M A)
      → ((e : Failure) → Keeps P (h e))
      → (w : World) → P w
      → P (handle r h w).1
  handle-Keeps (ok a) h kh w p = p
  handle-Keeps (err e) h kh w p = (kh e).at w p

  pub Keeps-try :
      (m : M A) (h : Failure → M A)
      → Keeps P m
      → ((e : Failure) → Keeps P (h e))
      → Keeps P (try m h)
  unfolding try
  Keeps-try m h km kh = record { at = λ w p. handle-Keeps (m w).0 h kh (m w).1 (km.at w p) }

  pub Keeps-attempt : (m : M A) → Keeps P m → Keeps P (attempt m)
  unfolding attempt
  Keeps-attempt m km = record { at = km.at }

module _ {P : World → Type 0} where
  pub Keeps-throw_if : (b : Bool) (e : Failure) → Keeps P (throw_if b e)
  unfolding throw_if
  Keeps-throw_if true e = record { at = λ w p. p }
  Keeps-throw_if false e = record { at = λ w p. p }

  pub Keeps-date_now : Keeps P date_now
  unfolding date_now
  Keeps-date_now = record { at = λ w p. p }

module _ {A B : Type 0} {P : World → Type 0} where
  continue-Keeps :
      (m : M A) (f : A → M B) (w : World) (r : Result A) (w' : World)
      → (m w).0 ≡ r
      → ((a : A) → Yields m a → Keeps P (f a))
      → P w'
      → P (continue r f w').1
  continue-Keeps m f w (ok a) w' e kf p = (kf a (record { before = w; returned = e })).at w' p
  continue-Keeps m f w (err x) w' e kf p = p

  -- The rest of a block may use that the first action can return the value.
  pub Keeps-bind_of :
      (m : M A) (f : A → M B)
      → Keeps P m
      → ((a : A) → Yields m a → Keeps P (f a))
      → Keeps P (m >>= f)
  unfolding ◌>>=◌
  Keeps-bind_of m f km kf = record {
    at = λ w p. continue-Keeps m f w (m w).0 (m w).1 refl kf (km.at w p);
  }

  pub Keeps-bind :
      (m : M A) (f : A → M B) → Keeps P m → ((a : A) → Keeps P (f a)) → Keeps P (m >>= f)
  Keeps-bind m f km kf = Keeps-bind_of m f km (λ a _. kf a)

module _ {A B : Type 0} {P : World → Type 0} where
  fork-Keeps :
      (m : M A) (f : A → M B) (h : Failure → M B) (w : World) (r : Result A) (w' : World)
      → (m w).0 ≡ r
      → ((a : A) → Yields m a → Keeps P (f a))
      → ((e : Failure) → Keeps P (h e))
      → P w'
      → P (fork r f h w').1
  fork-Keeps m f h w (ok a) w' e kf kh p = (kf a (record { before = w; returned = e })).at w' p
  fork-Keeps m f h w (err x) w' e kf kh p = (kh x).at w' p

  -- What follows a success may use that the action can return the value.
  pub Keeps-on_result_of :
      (m : M A) (f : A → M B) (h : Failure → M B)
      → Keeps P m
      → ((a : A) → Yields m a → Keeps P (f a))
      → ((e : Failure) → Keeps P (h e))
      → Keeps P (on_result m f h)
  unfolding on_result
  Keeps-on_result_of m f h km kf kh = record {
    at = λ w p. fork-Keeps m f h w (m w).0 (m w).1 refl kf kh (km.at w p);
  }

  pub Keeps-on_result :
      (m : M A) (f : A → M B) (h : Failure → M B)
      → Keeps P m
      → ((a : A) → Keeps P (f a))
      → ((e : Failure) → Keeps P (h e))
      → Keeps P (on_result m f h)
  Keeps-on_result m f h km kf kh = Keeps-on_result_of m f h km (λ a _. kf a) kh

pub ruleset keeps_rules = (
  Keeps-pure, Keeps-raise, Keeps-lift, Keeps-if, Keeps-try, Keeps-attempt, Keeps-throw_if,
  Keeps-date_now, Keeps-bind, Keeps-on_result,
)
