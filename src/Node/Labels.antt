-- ===== src/Node/Labels.antt =====
-- apps/api/src/operations/node-mutation.service.ts and node-mutation-verification.ts: lists of
-- identifiers as sorted sets, and the comparisons of labels. A record of labels is the list of its
-- entries, each key once.
pub mod Equal
pub mod Sets
use docklane.Prelude.{
  String, List, [], ◌∷◌, map, Bool, true, false, ◌&&◌, Option, none, some, ◌==◌, String-eq,
  Option-eq, every, if◌then◌else◌,
}
use docklane.Store.{LabelPatch}
use docklane.Lock.{unique, sort}

-- [...new Set(values)].sort(): the two sorts here and below are by code points, where JavaScript's
-- is by code units. They serve to compare two lists that are sorted alike.
unfoldable pub sorted_unique : List String → List String
unfolding unique sort
sorted_unique values = sort (unique values)

-- The lengths are the same, and so is each value.
unfoldable pub same_strings : List String → List String → Bool
same_strings [] [] = true
same_strings [] (y ∷ ys) = false
same_strings (x ∷ xs) [] = false
same_strings (x ∷ xs) (y ∷ ys) = x == y && same_strings xs ys

-- Object.keys(labels)
unfoldable pub keys : List (String × String) → List String
keys labels = map (λ entry. entry.0) labels

-- labels[key]
unfoldable pub value_of : String → List (String × String) → Option String
value_of key [] = none
value_of key ((k, value) ∷ labels) = if k == key then some value else value_of key labels

-- The keys have the same length, and each is the key at its index on the right, with its value.
unfoldable pub labels_agree :
    List (String × String) → List (String × String) → List String → List String → Bool
unfolding value_of
labels_agree left right [] [] = true
labels_agree left right [] (j ∷ js) = false
labels_agree left right (k ∷ ks) [] = false
labels_agree left right (k ∷ ks) (j ∷ js) =
    k == j && value_of k left == value_of k right && labels_agree left right ks js

unfoldable pub same_labels : List (String × String) → List (String × String) → Bool
unfolding keys sort labels_agree
same_labels left right = labels_agree left right (sort (keys left)) (sort (keys right))

abbrev same_patches : LabelPatch → LabelPatch → Bool
unfolding keys sort same_strings value_of every
same_patches left right =
    same_strings (sort (keys left.set)) (sort (keys right.set))
    && every (λ k. value_of k left.set == value_of k right.set) (sort (keys left.set))
    && same_strings (sort left.remove) (sort right.remove)

unfoldable pub same_label_patch : Option LabelPatch → Option LabelPatch → Bool
unfolding keys sort same_strings value_of every
same_label_patch none none = true
same_label_patch none (some right) = false
same_label_patch (some left) none = false
same_label_patch (some left) (some right) = same_patches left right
