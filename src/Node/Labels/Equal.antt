-- ===== src/Node/Labels/Equal.antt =====
-- apps/api/src/operations/node-mutation-verification.ts and node-mutation.service.ts: two records of
-- labels compare as the same exactly if they give each key the same value.
use Prim.Native.Nat.{Ordering, compare as compare_nat}
use Prim.Native.Char.{code}
use Prim.Native.String.compare as string_order
use Prim.Native.String.{compare, then as refined_by}
use text.Mathlib.TextEquality.{path_by_compare}
use docklane.Prelude.{
  ℕ, ◌≡◌, ◌≢◌, ◌↔◌, refl, sym, ap, ◌∙◌, subst, String, Bool, true, false, List, [], ◌∷◌, All,
  NoRepeats, contains, ◌==◌, String-eq, Option-eq, eq_iff, option_eq_iff, Option, none, some,
  Bool-cases, inl, inr, arith,
}
use docklane.Lock.{sort}
use docklane.Lock.Order.{
  IsSorted, Below, compare-flip, flip, sort-IsSorted, contains-sort, absent_iff, sort-NoRepeats,
}
use docklane.Node.Labels.{keys, value_of, labels_agree, same_labels}

-- `then` of two orders, which is not "after" where both of its parts are not.
refined_trans :
    (a b c : ℕ) (o p q : Ordering)
    → (o ≢ Ordering.gt → p ≢ Ordering.gt → q ≢ Ordering.gt)
    → refined_by (compare_nat a b) o ≢ Ordering.gt
    → refined_by (compare_nat b c) p ≢ Ordering.gt
    → refined_by (compare_nat a c) q ≢ Ordering.gt
refined_trans a b c o p q h k l e = ground arith

compare_trans :
    (s t u : String)
    → compare s t ≢ Ordering.gt
    → compare t u ≢ Ordering.gt
    → compare s u ≢ Ordering.gt
compare_trans String.[] t String.[] h k e = cc string_order.nil-nil
compare_trans String.[] t (String.◌∷◌ d u) h k e = cc (string_order.nil-cons d u)
compare_trans (String.◌∷◌ c s) String.[] u h k e = absurd (h (string_order.cons-nil c s))
compare_trans (String.◌∷◌ c s) (String.◌∷◌ d t) String.[] h k e =
    absurd (k (string_order.cons-nil d t))
compare_trans (String.◌∷◌ c s) (String.◌∷◌ d t) (String.◌∷◌ e u) h k g =
    refined_trans (code c) (code d) (code e) (compare s t) (compare t u) (compare s u)
      (compare_trans s t u) (λ x. h (string_order.cons-cons c d s t ∙ x))
      (λ x. k (string_order.cons-cons d e t u ∙ x)) (sym (string_order.cons-cons c e s u) ∙ g)

antisym :
    (o : Ordering) (x y : String)
    → compare x y ≡ o
    → o ≢ Ordering.gt
    → compare y x ≢ Ordering.gt
    → x ≡ y
antisym Ordering.lt x y e h k = absurd (k (compare-flip x y ∙ ap flip e))
antisym Ordering.eq x y e h k = path_by_compare x y e
antisym Ordering.gt x y e h k = absurd (h refl)

-- The first of a sorted list is not after any other.
Below-All :
    (x : String) (ys : List String)
    → Below x ys
    → IsSorted ys
    → All (λ y. compare x y ≢ Ordering.gt) ys
Below-All x [] b h = tt
Below-All x (y ∷ []) b h = (b, tt)
Below-All x (y ∷ z ∷ zs) b (n, h) = (b, Below-All x (z ∷ zs) (compare_trans x y z b n) h)

member-All :
    (P : String → Type 0) (xs : List String) (x : String) → All P xs → contains xs x ≡ true → P x
unfolding contains
member-All P [] x a e = absurd (ground arith)
member-All P (y ∷ ys) x (p, a) e = elim (Bool-cases (y == x)) [
  | inl same ↦ subst P ((eq_iff y x).0 same) p
  | inr other ↦ member-All P ys x a (ground arith)
]

contains-head : (x : String) (xs : List String) → contains (x ∷ xs) x ≡ true
unfolding contains
contains-head x xs = ground (arith, eq_iff x x)

heads_eq :
    (x y : String) (xs ys : List String)
    → IsSorted (x ∷ xs)
    → IsSorted (y ∷ ys)
    → contains (y ∷ ys) x ≡ true
    → contains (x ∷ xs) y ≡ true
    → x ≡ y
unfolding contains
heads_eq x y xs ys (b, h) (c, k) m n = elim (Bool-cases (y == x)) [
  | inl same ↦ sym ((eq_iff y x).0 same)
  | inr other ↦ elim (Bool-cases (x == y)) [
    | inl same ↦ (eq_iff x y).0 same
    | inr other' ↦
        antisym (compare x y) x y refl (member-All _ xs y (Below-All x xs b h) (ground arith))
          (member-All _ ys x (Below-All y ys c k) (ground arith))
  ]
]

tails_same :
    (x a : String) (xs ys : List String)
    → All (λ y. y ≢ x) xs
    → All (λ y. y ≢ x) ys
    → contains (x ∷ xs) a ≡ contains (x ∷ ys) a
    → contains xs a ≡ contains ys a
unfolding contains
tails_same x a xs ys n m same = elim (Bool-cases (x == a)) [
  | inl e ↦
      let p = (eq_iff x a).0 e in
      subst (λ z. contains xs z ≡ contains ys z) p
        ((absent_iff xs x).1 n ∙ sym ((absent_iff ys x).1 m))
  | inr e ↦ ground arith
]

-- Two sorted lists without repeats that hold the same values are the same.
pub sorted_eq :
    (xs ys : List String)
    → IsSorted xs
    → NoRepeats xs
    → IsSorted ys
    → NoRepeats ys
    → ((a : String) → contains xs a ≡ contains ys a)
    → xs ≡ ys
unfolding contains
sorted_eq [] [] h n k m same = refl
sorted_eq [] (y ∷ ys) h n k m same = cc (same y, contains-head y ys)
sorted_eq (x ∷ xs) [] h n k m same = cc (same x, contains-head x xs)
sorted_eq (x ∷ xs) (y ∷ ys) h n k m same =
    let e =
      heads_eq x y xs ys h k (sym (same x) ∙ contains-head x xs) (same y ∙ contains-head y ys) in
    let apart = subst (λ z. All (λ w. w ≢ z) ys) (sym e) m.0 in
    let rest = sorted_eq xs ys h.1 n.1 k.1 m.1 λ a.
      tails_same x a xs ys n.0 apart
        (same a ∙ subst (λ z. contains (z ∷ ys) a ≡ contains (x ∷ ys) a) e refl) in
    λ i. e i ∷ rest i

-- The labels have the key.
is_some {ℓ} : {A : Type ℓ} → Option A → Bool
is_some none = false
is_some (some a) = true

none_of {ℓ} : {A : Type ℓ} (o : Option A) → is_some o ≡ false → o ≡ none
unfolding is_some
none_of none h = refl
none_of (some a) h = cc

has_key :
    (k : String) (labels : List (String × String))
    → contains (keys labels) k ≡ is_some (value_of k labels)
unfolding contains keys value_of is_some
has_key k [] = refl
has_key k ((j, v) ∷ labels) = ground (arith, has_key k labels)

agree_iff :
    (left right : List (String × String)) (ks js : List String)
    → (labels_agree left right ks js ≡ true)
      ↔ ((ks ≡ js) × All (λ k. value_of k left ≡ value_of k right) ks)
unfolding labels_agree
agree_iff left right [] [] = (λ h. (refl, tt), λ h. refl)
agree_iff left right [] (j ∷ js) = (λ h. cc, λ h. cc h.0)
agree_iff left right (k ∷ ks) [] = (λ h. cc, λ h. cc h.0)
agree_iff left right (k ∷ ks) (j ∷ js) =
    let same = eq_iff k j in
    let value = option_eq_iff (value_of k left) (value_of k right) in
    let rest = agree_iff left right ks js in
    (
      λ h.
          let (e, a) = rest.0 (ground arith) in
          (λ i. same.0 (ground arith) i ∷ e i, (value.0 (ground arith), a)),
      λ h.
          let head : k ≡ j = cc h.0 in
          let tail : ks ≡ js = cc h.0 in
          ground (arith, same.1 head, value.1 h.1.0, rest.1 (tail, h.1.1)),
    )

-- What holds of each key of a list holds of every key, where it holds of those that are not there.
All-keys :
    (P : String → Type 0) (ks : List String)
    → All P ks
    → ((k : String) → contains ks k ≡ false → P k)
    → (k : String) → P k
All-keys P ks a absent k = elim (Bool-cases (contains ks k)) [
  | inl e ↦ member-All P ks k a e
  | inr e ↦ absent k e
]

All-of {ℓ} : {A : Type ℓ} (P : A → Type 0) (xs : List A) → ((x : A) → P x) → All P xs
All-of P [] f = tt
All-of P (x ∷ xs) f = (f x, All-of P xs f)

absent_value :
    (k : String) (labels : List (String × String))
    → contains (sort (keys labels)) k ≡ false
    → value_of k labels ≡ none
absent_value k labels e =
    let h : is_some (value_of k labels) ≡ false =
      sym (has_key k labels) ∙ sym (contains-sort k (keys labels)) ∙ e in
    none_of (value_of k labels) h

-- Two records of labels, each of whose keys stands once, compare as the same exactly if they give
-- every key the same value or none.
pub same_labels_iff :
    (left right : List (String × String))
    → NoRepeats (keys left)
    → NoRepeats (keys right)
    → (same_labels left right ≡ true) ↔ ((k : String) → value_of k left ≡ value_of k right)
unfolding same_labels
same_labels_iff left right n m =
    let ks = sort (keys left) in
    let js = sort (keys right) in
    (
      λ h.
          let (e, a) = (agree_iff left right ks js).0 h in
          All-keys (λ k. value_of k left ≡ value_of k right) ks a
            λ k absent.
              absent_value k left absent
              ∙ sym (absent_value k right (subst (λ l. contains l k ≡ false) e absent)),
      λ same. (agree_iff left right ks js).1 (
        sorted_eq ks js (sort-IsSorted (keys left)) (sort-NoRepeats (keys left) n)
            (sort-IsSorted (keys right)) (sort-NoRepeats (keys right) m)
            (λ a.
              contains-sort a (keys left)
              ∙ has_key a left
              ∙ ap is_some (same a)
              ∙ sym (has_key a right)
              ∙ sym (contains-sort a (keys right))),
        All-of (λ k. value_of k left ≡ value_of k right) ks same,
      ),
    )
