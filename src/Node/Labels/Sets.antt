-- ===== src/Node/Labels/Sets.antt =====
-- apps/api/src/operations/node-mutation.service.ts: sortedUnique and sameStrings compare two lists of
-- services as sets.
use docklane.Prelude.{
  ◌≡◌, ◌↔◌, refl, sym, ap, ◌∙◌, String, true, List, [], ◌∷◌, contains, String-eq, eq_iff, arith,
}
use docklane.Lock.{unique, sort}
use docklane.Lock.Order.{
  sort-IsSorted, contains-sort, contains-unique, unique-NoRepeats, sort-NoRepeats,
}
use docklane.Node.Labels.{sorted_unique, same_strings}
use docklane.Node.Labels.Equal.{sorted_eq}

pub same_strings_iff : (xs ys : List String) → (same_strings xs ys ≡ true) ↔ (xs ≡ ys)
unfolding same_strings
same_strings_iff [] [] = (λ h. refl, λ h. refl)
same_strings_iff [] (y ∷ ys) = (λ h. cc, λ h. cc)
same_strings_iff (x ∷ xs) [] = (λ h. cc, λ h. cc)
same_strings_iff (x ∷ xs) (y ∷ ys) =
    let same = eq_iff x y in
    let rest = same_strings_iff xs ys in
    (
      λ h. λ i. same.0 (ground arith) i ∷ rest.0 (ground arith) i,
      λ h.
          let head : x ≡ y = cc h in
          let tail : xs ≡ ys = cc h in ground (arith, same.1 head, rest.1 tail),
    )

pub contains-sorted_unique :
    (a : String) (xs : List String) → contains (sorted_unique xs) a ≡ contains xs a
unfolding sorted_unique
contains-sorted_unique a xs = contains-sort a (unique xs) ∙ contains-unique a xs

sorted_unique_eq :
    (xs ys : List String)
    → ((a : String) → contains xs a ≡ contains ys a)
    → sorted_unique xs ≡ sorted_unique ys
unfolding sorted_unique
sorted_unique_eq xs ys same =
    let us = unique xs in
    let vs = unique ys in
    sorted_eq (sort us) (sort vs) (sort-IsSorted us) (sort-NoRepeats us (unique-NoRepeats xs))
      (sort-IsSorted vs) (sort-NoRepeats vs (unique-NoRepeats ys))
      (λ a. contains-sorted_unique a xs ∙ same a ∙ sym (contains-sorted_unique a ys))

-- Two lists of services, each sorted and without repeats, compare as the same exactly if the lists
-- hold the same services, in whatever order and however often.
pub same_strings-sorted_unique_iff :
    (xs ys : List String)
    → (same_strings (sorted_unique xs) (sorted_unique ys) ≡ true)
      ↔ ((a : String) → contains xs a ≡ contains ys a)
same_strings-sorted_unique_iff xs ys = (
  λ h a.
      sym (contains-sorted_unique a xs)
      ∙ ap (λ l. contains l a) ((same_strings_iff (sorted_unique xs) (sorted_unique ys)).0 h)
      ∙ contains-sorted_unique a ys,
  λ same. (same_strings_iff (sorted_unique xs) (sorted_unique ys)).1 (sorted_unique_eq xs ys same),
)
