-- ===== src/Prelude/Lists.antt =====
-- Lists measured by native numbers, and predicates over lists.
use Prim.Native.Nat.{ℕ, zero, suc, ◌+◌}
use mathlib.Core.Path.{◌≡◌, refl, ap, sym, subst}
use mathlib.Core.Logic.{◌↔◌, ◌≢◌, ◌⊎◌, inl, inr}
use mathlib.Core.Bool.{Bool, true, false, ◌&&◌, ◌||◌}
use mathlib.Core.Option.{Option, none, some}
use mathlib.Core.Option
use mathlib.Core.List.{List, [], ◌∷◌, ◌++◌, map}
use native.Mathlib.Omega.{arith}
use docklane.Prelude.Tests.{Bool-cases, Comparable, ◌==◌, if◌then◌else◌}

module _ {ℓ} {A : Type ℓ} where
  abbrev pub length : List A → ℕ
  length [] = 0
  length (x ∷ xs) = suc (length xs)

  abbrev pub take : ℕ → List A → List A
  take zero xs = []
  take (suc n) [] = []
  take (suc n) (x ∷ xs) = x ∷ take n xs

  abbrev pub drop : ℕ → List A → List A
  drop zero xs = xs
  drop (suc n) [] = []
  drop (suc n) (x ∷ xs) = drop n xs

  -- Array.prototype.find, filter and every.
  unfoldable pub find : (A → Bool) → List A → Option A
  find p [] = none
  find p (x ∷ xs) = if p x then some x else find p xs

  unfoldable pub keep : (A → Bool) → List A → List A
  keep p [] = []
  keep p (x ∷ xs) = let rest = keep p xs in if p x then x ∷ rest else rest

  unfoldable pub every : (A → Bool) → List A → Bool
  every p [] = true
  every p (x ∷ xs) = p x && every p xs

  pub length-append : (xs ys : List A) → length (xs ++ ys) ≡ length xs + length ys
  length-append [] ys = omega arith
  length-append (x ∷ xs) ys = omega (arith, length-append xs ys)

abbrev pub All {ℓ κ} : {A : Type ℓ} → (A → Type κ) → List A → Type κ
All P [] = Unit
All P (x ∷ xs) = P x × All P xs

-- No value stands twice.
abbrev pub NoRepeats {ℓ} : {A : Type ℓ} → List A → Type ℓ
NoRepeats [] = Unit
NoRepeats (x ∷ xs) = All (λ y. y ≢ x) xs × NoRepeats xs

module _ {ℓ} {A : Type ℓ} ⦃c : Comparable A⦄ where
  unfoldable pub contains : List A → A → Bool
  contains [] a = false
  contains (x ∷ xs) a = x == a || contains xs a

  abbrev lists_eq : List A → List A → Bool
  lists_eq [] [] = true
  lists_eq (x ∷ xs) (y ∷ ys) = x == y && lists_eq xs ys
  lists_eq _ _ = false

module _ {ℓ κ} {A : Type ℓ} (P : A → Type κ) where
  pub All-append : (xs ys : List A) → All P xs → All P ys → All P (xs ++ ys)
  All-append [] ys p q = q
  All-append (x ∷ xs) ys (h, p) q = (h, All-append xs ys p q)

  pub All-map {μ} : (R : A → Type μ) (xs : List A) → ((x : A) → P x → R x) → All P xs → All R xs
  All-map R [] f p = tt
  All-map R (x ∷ xs) f (h, p) = (f x h, All-map R xs f p)

module _ {ℓ κ} {A : Type ℓ} {B : Type κ} where
  pub All-map_append {μ} :
      (f : A → B) (P : B → Type μ) (xs : List A) (x : A)
      → All P (map f xs)
      → P (f x)
      → All P (map f (xs ++ x ∷ []))
  All-map_append f P [] x a p = (p, tt)
  All-map_append f P (y ∷ ys) x (h, a) p = (h, All-map_append f P ys x a p)

  -- A new value at the end.
  pub NoRepeats-map_append :
      (f : A → B) (xs : List A) (x : A)
      → NoRepeats (map f xs)
      → All (λ y. f y ≢ f x) xs
      → NoRepeats (map f (xs ++ x ∷ []))
  NoRepeats-map_append f [] x h n = (tt, tt)
  NoRepeats-map_append f (y ∷ ys) x (a, h) (m, n) =
      (All-map_append f (λ b. b ≢ f y) ys x a (λ e. m (sym e)), NoRepeats-map_append f ys x h n)

  pub length-map : (f : A → B) (xs : List A) → length (map f xs) ≡ length xs
  length-map f [] = refl
  length-map f (x ∷ xs) = ap suc (length-map f xs)

-- `every` as a predicate.
pub every_iff {ℓ} :
    {A : Type ℓ} (p : A → Bool) (xs : List A) → (every p xs ≡ true) ↔ All (λ x. p x ≡ true) xs
unfolding every
every_iff p [] = (λ h. tt, λ h. refl)
every_iff p (x ∷ xs) = (
  λ h. (ground arith, (every_iff p xs).0 (ground arith)),
  λ h. ground (arith, (every_iff p xs).1 h.1),
)

-- The values of a list that satisfy `P`, in their order.
abbrev pub Selects {ℓ} : {A : Type ℓ} → (A → Type ℓ) → List A → List A → Type ℓ
Selects P [] ys = ys ≡ []
Selects {A = A} P (x ∷ xs) ys =
    (P x × ((rest : List A) × (ys ≡ x ∷ rest) × Selects P xs rest)) ⊎ (¬ P x × Selects P xs ys)

-- `keep` as a relation.
module _ {ℓ} {A : Type ℓ} (p : A → Bool) (P : A → Type ℓ)
    (p_iff : (x : A) → (p x ≡ true) ↔ P x) where
  pub keep-Selects : (xs : List A) → Selects P xs (keep p xs)
  unfolding keep
  keep-Selects [] = refl
  keep-Selects (x ∷ xs) = elim (Bool-cases (p x)) [
    | inl e ↦ inl ((p_iff x).0 e, (keep p xs, rw e refl, keep-Selects xs))
    | inr e ↦ inr (
      λ h. let hit = (p_iff x).1 h in cc,
      subst (Selects P xs) (sym (rw e refl)) (keep-Selects xs),
    )
  ]

  pub Selects-keep : (xs ys : List A) → Selects P xs ys → keep p xs ≡ ys
  unfolding keep
  Selects-keep [] ys h = sym h
  Selects-keep (x ∷ xs) ys (inl (h, (rest, e, r))) =
      let hit = (p_iff x).1 h in let more = Selects-keep xs rest r in rw hit cc
  Selects-keep (x ∷ xs) ys (inr (n, r)) = elim (Bool-cases (p x)) [
    | inl e ↦ absurd (n ((p_iff x).0 e))
    | inr e ↦ let more = Selects-keep xs ys r in rw e more
  ]

-- A value at the end is found where no other is.
module _ {ℓ} {A : Type ℓ} (p : A → Bool) where
  pub find-append :
      (xs : List A) (x : A)
      → find p xs ≡ none
      → find p (xs ++ x ∷ []) ≡ (if p x then some x else none)
  unfolding find
  find-append [] x h = refl
  find-append (y ∷ xs) x h = ground (arith, find-append xs x)

  pub find-append_found :
      (xs : List A) (x y : A) → find p xs ≡ some y → find p (xs ++ x ∷ []) ≡ some y
  unfolding find
  find-append_found [] x y h = cc
  find-append_found (z ∷ xs) x y h = ground (arith, find-append_found xs x y)

-- UPDATE … WHERE: the rows that it matches, and the rows as it leaves them.
module _ {ℓ} {A : Type ℓ} (p : A → Bool) where
  unfoldable pub update_where : (A → A) → List A → List A
  update_where f [] = []
  update_where f (x ∷ xs) = (if p x then f x else x) ∷ update_where f xs

  unfoldable pub matched : List A → ℕ
  matched [] = 0
  matched (x ∷ xs) = let rest = matched xs in if p x then suc rest else rest

  pub find-update_where :
      (q : A → Bool) (f : A → A)
      → ((x : A) → q (f x) ≡ q x)
      → (xs : List A)
      → find q (update_where f xs) ≡ Option.map (λ x. if p x then f x else x) (find q xs)
  unfolding find update_where
  find-update_where q f same [] = refl
  find-update_where q f same (x ∷ xs) = ground (arith, same x, find-update_where q f same xs)

pub find-true {ℓ} :
    {A : Type ℓ} (p : A → Bool) (xs : List A) (y : A) → find p xs ≡ some y → p y ≡ true
unfolding find
find-true p [] y h = cc
find-true p (x ∷ xs) y h = elim (Bool-cases (p x)) [
  | inl e ↦ let same : x ≡ y = ground arith in subst (λ z. p z ≡ true) same e
  | inr e ↦ find-true p xs y (ground arith)
]
