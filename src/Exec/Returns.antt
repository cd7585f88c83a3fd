-- ===== src/Exec/Returns.antt =====
-- What is true of the value that an action returns, from what each step of it can return.
use docklane.Prelude.{ℕ, ◌≡◌, refl, subst, Bool, true, false, if◌then◌else◌}
use docklane.Agent.Errors.{Answer, yields, refuses}
use docklane.Exec.{
  Failure, Result, ok, err, World, Env, M, pure, raise, continue, fork, on_result, ◌>>=◌, ask,
  answered, throw_if, handle, try,
}
use docklane.Exec.Keeps.{Yields}

pub record Returns {A : Type 0} (R : A → Type 0) (m : M A) : Type 0 where
  pub at : (w : World) (a : A) → (m w).0 ≡ ok a → R a

-- `m` can throw `e`.
pub record Throws {A : Type 0} (m : M A) (e : Failure) : Type 0 where
  pub before : World
  pub thrown : (m before).0 ≡ err e

ok-inj : {A : Type 0} {a b : A} → ok a ≡ ok b → a ≡ b
ok-inj e = cc

module _ {A : Type 0} {R : A → Type 0} where
  pub Returns-pure : (a : A) → R a → Returns R (pure a)
  unfolding pure
  Returns-pure a r = record { at = λ w b e. subst R (ok-inj e) r }

  pub Returns-raise : (e : Failure) → Returns R (raise {A = A} e)
  unfolding raise
  Returns-raise e = record { at = λ w b h. cc }

  pub Returns-if :
      (b : Bool) (m n : M A)
      → (b ≡ true → Returns R m)
      → (b ≡ false → Returns R n)
      → Returns R (if b then m else n)
  Returns-if true m n km kn = km refl
  Returns-if false m n km kn = kn refl

module _ {A B : Type 0} {R : B → Type 0} where
  continue-Returns :
      (m : M A) (f : A → M B) (w : World) (r : Result A) (w' : World)
      → (m w).0 ≡ r
      → ((a : A) → Yields m a → Returns R (f a))
      → (b : B) → (continue r f w').0 ≡ ok b
      → R b
  continue-Returns m f w (ok a) w' e kf b h = (kf a (record { before = w; returned = e })).at w' b h
  continue-Returns m f w (err x) w' e kf b h = cc

  pub Returns-bind :
      (m : M A) (f : A → M B) → ((a : A) → Yields m a → Returns R (f a)) → Returns R (m >>= f)
  unfolding ◌>>=◌
  Returns-bind m f kf = record { at = λ w b h. continue-Returns m f w (m w).0 (m w).1 refl kf b h }

  fork-Returns_of :
      (m : M A) (f : A → M B) (h : Failure → M B) (w : World) (r : Result A) (w' : World)
      → (m w).0 ≡ r
      → ((a : A) → Returns R (f a))
      → ((e : Failure) → Throws m e → Returns R (h e))
      → (b : B) → (fork r f h w').0 ≡ ok b
      → R b
  fork-Returns_of m f h w (ok a) w' e kf kh b p = (kf a).at w' b p
  fork-Returns_of m f h w (err x) w' e kf kh b p =
      (kh x (record { before = w; thrown = e })).at w' b p

  -- The handler may use that the action can throw the error.
  pub Returns-on_result_of :
      (m : M A) (f : A → M B) (h : Failure → M B)
      → ((a : A) → Returns R (f a))
      → ((e : Failure) → Throws m e → Returns R (h e))
      → Returns R (on_result m f h)
  unfolding on_result
  Returns-on_result_of m f h kf kh = record {
    at = λ w b p. fork-Returns_of m f h w (m w).0 (m w).1 refl kf kh b p;
  }

  fork-Returns :
      (m : M A) (f : A → M B) (h : Failure → M B) (w : World) (r : Result A) (w' : World)
      → (m w).0 ≡ r
      → ((a : A) → Yields m a → Returns R (f a))
      → ((e : Failure) → Returns R (h e))
      → (b : B) → (fork r f h w').0 ≡ ok b
      → R b
  fork-Returns m f h w (ok a) w' e kf kh b p =
      (kf a (record { before = w; returned = e })).at w' b p
  fork-Returns m f h w (err x) w' e kf kh b p = (kh x).at w' b p

  pub Returns-on_result :
      (m : M A) (f : A → M B) (h : Failure → M B)
      → ((a : A) → Yields m a → Returns R (f a))
      → ((e : Failure) → Returns R (h e))
      → Returns R (on_result m f h)
  unfolding on_result
  Returns-on_result m f h kf kh = record {
    at = λ w b p. fork-Returns m f h w (m w).0 (m w).1 refl kf kh b p;
  }

-- The environment said it.
answered-inv : {A : Type 0} (q : Answer A) (a : A) → answered q ≡ ok a → q ≡ yields a
answered-inv (yields b) a e = cc
answered-inv (refuses x) a e = cc

pub Yields-ask :
    {A : Type 0} (env : Env) (q : ℕ → Answer A) (a : A)
    → Yields (ask env q) a
    → (n : ℕ) × (q n ≡ yields a)
unfolding ask
Yields-ask env q a y = (y.before.calls, answered-inv (q y.before.calls) a y.returned)

throw_if-ok :
    (b : Bool) (e : Failure) (w : World) (a : Unit {0}) → (throw_if b e w).0 ≡ ok a → b ≡ false
unfolding throw_if
throw_if-ok true e w a h = cc
throw_if-ok false e w a h = refl

-- The check passed.
pub Yields-throw_if : (b : Bool) (e : Failure) (a : Unit {0}) → Yields (throw_if b e) a → b ≡ false
Yields-throw_if b e a y = throw_if-ok b e y.before a y.returned

handled-ok :
    {A : Type 0} (r : Result A) (x : Failure → Failure) (w : World) (a : A)
    → (handle r (λ e. raise (x e)) w).0 ≡ ok a
    → r ≡ ok a
unfolding raise
handled-ok (ok b) x w a h = h
handled-ok (err e) x w a h = cc

-- A `try` whose handler throws returns what its body has returned.
pub Yields-try-raise :
    {A : Type 0} (m : M A) (x : Failure → Failure) (a : A)
    → Yields (try m (λ e. raise (x e))) a
    → Yields m a
unfolding try
Yields-try-raise m x a y = record {
  before = y.before;
  returned = handled-ok (m y.before).0 x (m y.before).1 a y.returned;
}

-- What an action can return, all of it.
pub Returns-of :
    {A : Type 0} {R : A → Type 0} {m : M A} → ((a : A) → Yields m a → R a) → Returns R m
Returns-of k = record { at = λ w a e. k a (record { before = w; returned = e }) }

pub Returns-map :
    {A : Type 0} {R S : A → Type 0} (m : M A) → ((a : A) → R a → S a) → Returns R m → Returns S m
Returns-map m f k = record { at = λ w a e. f a (k.at w a e) }
