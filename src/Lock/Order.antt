-- ===== src/Lock/Order.antt =====
-- apps/api/src/operations/operation-lock.ts: the locks' names are asked for in one order, so that two
-- sessions cannot wait for each other.
use Prim.Native.Nat.{Ordering, compare as compare_nat}
use Prim.Native.Char.{code}
use Prim.Native.String.compare as string_order
use Prim.Native.String.{compare, then as refined_by}
use docklane.Prelude.{
  ℕ, ◌≡◌, ◌≢◌, ◌↔◌, inl, inr, refl, sym, ap, ◌∙◌, String, false, List, [], ◌∷◌, map, All, NoRepeats,
  contains, ◌==◌, ◌||◌, String-eq, eq_iff, Bool-cases, arith,
}
use docklane.Exec.{Env}
use docklane.Lock.{unique, insert_sorted, sort, lock_names, named_lock_name}

-- Comparing the other way round.
abbrev pub flip : Ordering → Ordering
flip Ordering.lt = Ordering.gt
flip Ordering.eq = Ordering.eq
flip Ordering.gt = Ordering.lt

flip-then : (o r : Ordering) → flip (refined_by o r) ≡ refined_by (flip o) (flip r)
flip-then Ordering.lt r = refl
flip-then Ordering.eq r = refl
flip-then Ordering.gt r = refl

compare_nat-flip : (a b : ℕ) → compare_nat b a ≡ flip (compare_nat a b)
compare_nat-flip a b = ground arith

pub compare-flip : (s t : String) → compare t s ≡ flip (compare s t)
compare-flip String.[] String.[] = string_order.nil-nil ∙ sym (ap flip string_order.nil-nil)
compare-flip String.[] (String.◌∷◌ d t) =
    string_order.cons-nil d t ∙ sym (ap flip (string_order.nil-cons d t))
compare-flip (String.◌∷◌ c s) String.[] =
    string_order.nil-cons c s ∙ sym (ap flip (string_order.cons-nil c s))
compare-flip (String.◌∷◌ c s) (String.◌∷◌ d t) =
    string_order.cons-cons d c t s
    ∙ ap (λ o. refined_by o (compare t s)) (compare_nat-flip (code c) (code d))
    ∙ ap (refined_by (flip (compare_nat (code c) (code d)))) (compare-flip s t)
    ∙ sym (flip-then (compare_nat (code c) (code d)) (compare s t))
    ∙ sym (ap flip (string_order.cons-cons c d s t))

-- A name is not after the first of a list; no name is after the next.
abbrev pub Below : String → List String → Type 0
Below x [] = Unit
Below x (y ∷ ys) = compare x y ≢ Ordering.gt

abbrev pub IsSorted : List String → Type 0
IsSorted [] = Unit
IsSorted (x ∷ xs) = Below x xs × IsSorted xs

flip-gt : (o : Ordering) → o ≡ Ordering.gt → flip o ≢ Ordering.gt
flip-gt Ordering.lt h = cc
flip-gt Ordering.eq h = cc
flip-gt Ordering.gt h = λ e. cc

not_after : (x y : String) → compare x y ≡ Ordering.gt → compare y x ≢ Ordering.gt
not_after x y h e = flip-gt (compare x y) h (sym (compare-flip x y) ∙ e)

insert_sorted-Below :
    (x y : String) (ys : List String)
    → compare y x ≢ Ordering.gt
    → Below y ys
    → Below y (insert_sorted x ys)
unfolding insert_sorted
insert_sorted-Below x y [] n b = n
insert_sorted-Below x y (z ∷ zs) n b = ground arith

insert_sorted-IsSorted :
    (x : String) (ys : List String) → IsSorted ys → IsSorted (insert_sorted x ys)
unfolding insert_sorted
insert_sorted-IsSorted x [] h = (tt, tt)
insert_sorted-IsSorted x (y ∷ ys) (b, h) =
    elim (compare x y)
        as (λ o.
          compare x y ≡ o
          → IsSorted (elim o [ Ordering.gt ↦ y ∷ insert_sorted x ys | _ ↦ x ∷ y ∷ ys ])) [
            | Ordering.gt ↦
                λ e. (insert_sorted-Below x y ys (not_after x y e) b, insert_sorted-IsSorted x ys h)
            | Ordering.lt ↦ λ e. (λ g. cc, (b, h))
            | Ordering.eq ↦ λ e. (λ g. cc, (b, h))
          ]
      refl

pub sort-IsSorted : (xs : List String) → IsSorted (sort xs)
unfolding sort
sort-IsSorted [] = tt
sort-IsSorted (x ∷ xs) = insert_sorted-IsSorted x (sort xs) (sort-IsSorted xs)

contains-insert_sorted :
    (x a : String) (ys : List String) → contains (insert_sorted x ys) a ≡ (x == a || contains ys a)
unfolding insert_sorted contains
contains-insert_sorted x a [] = refl
contains-insert_sorted x a (y ∷ ys) = ground (arith, contains-insert_sorted x a ys)

pub contains-sort : (a : String) (xs : List String) → contains (sort xs) a ≡ contains xs a
unfolding sort contains
contains-sort a [] = refl
contains-sort a (x ∷ xs) =
    contains-insert_sorted x a (sort xs) ∙ ap (λ b. x == a || b) (contains-sort a xs)

pub contains-unique : (a : String) (xs : List String) → contains (unique xs) a ≡ contains xs a
unfolding unique contains
contains-unique a [] = refl
contains-unique a (x ∷ xs) = ground (arith, contains-unique a xs, contains-unique x xs, eq_iff x a)

-- `contains` as a predicate.
pub absent_iff : (xs : List String) (x : String) → (contains xs x ≡ false) ↔ All (λ y. y ≢ x) xs
unfolding contains
absent_iff [] x = (λ h. tt, λ h. refl)
absent_iff (y ∷ ys) x = (
  λ h. (ground (arith, eq_iff y x), (absent_iff ys x).0 (ground arith)),
  λ h. ground (arith, eq_iff y x, h.0, (absent_iff ys x).1 h.1),
)

pub unique-NoRepeats : (xs : List String) → NoRepeats (unique xs)
unfolding unique
unique-NoRepeats [] = tt
unique-NoRepeats (x ∷ xs) = elim (Bool-cases (contains (unique xs) x)) [
  | inl e ↦ rw e (unique-NoRepeats xs)
  | inr e ↦ rw e ((absent_iff (unique xs) x).0 e, unique-NoRepeats xs)
]

insert_sorted-All :
    (P : String → Type 0) (x : String) (ys : List String)
    → P x
    → All P ys
    → All P (insert_sorted x ys)
unfolding insert_sorted
insert_sorted-All P x [] p a = (p, tt)
insert_sorted-All P x (y ∷ ys) p (h, a) =
    elim (compare x y)
      as (λ o. All P (elim o [ Ordering.gt ↦ y ∷ insert_sorted x ys | _ ↦ x ∷ y ∷ ys ])) [
        | Ordering.gt ↦ (h, insert_sorted-All P x ys p a)
        | Ordering.lt ↦ (p, (h, a))
        | Ordering.eq ↦ (p, (h, a))
      ]

insert_sorted-NoRepeats :
    (x : String) (ys : List String)
    → All (λ y. y ≢ x) ys
    → NoRepeats ys
    → NoRepeats (insert_sorted x ys)
unfolding insert_sorted
insert_sorted-NoRepeats x [] a h = (tt, tt)
insert_sorted-NoRepeats x (y ∷ ys) (n, a) (m, h) =
    elim (compare x y)
      as (λ o. NoRepeats (elim o [ Ordering.gt ↦ y ∷ insert_sorted x ys | _ ↦ x ∷ y ∷ ys ])) [
        | Ordering.gt ↦ (
          insert_sorted-All (λ z. z ≢ y) x ys (λ e. n (sym e)) m,
          insert_sorted-NoRepeats x ys a h,
        )
        | Ordering.lt ↦ ((n, a), (m, h))
        | Ordering.eq ↦ ((n, a), (m, h))
      ]

pub sort-NoRepeats : (xs : List String) → NoRepeats xs → NoRepeats (sort xs)
unfolding sort
sort-NoRepeats [] h = tt
sort-NoRepeats (x ∷ xs) (n, h) =
    insert_sorted-NoRepeats x (sort xs)
      ((absent_iff (sort xs) x).0 (contains-sort x xs ∙ (absent_iff xs x).1 n))
      (sort-NoRepeats xs h)

-- The names that withNamedLock asks for are in ascending order, none of them twice, and they are the
-- names of the keys: a name is asked for exactly if it is that of a key.
pub lock_names-ordered :
    (env : Env) (keys : List String) (name : String)
    → IsSorted (lock_names env keys)
      × NoRepeats (lock_names env keys)
      × (contains (lock_names env keys) name ≡ contains (map (named_lock_name env) keys) name)
unfolding lock_names
lock_names-ordered env keys name =
    let names = map (named_lock_name env) keys in
    (
      sort-IsSorted (unique names),
      sort-NoRepeats (unique names) (unique-NoRepeats names),
      contains-sort name (unique names) ∙ contains-unique name names,
    )
