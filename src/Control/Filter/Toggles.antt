-- ===== src/Control/Filter/Toggles.antt =====
-- toggleLabelFilter of mocko-control/lib/mock/filter.ts, as isLabelFilterSelected sees it.
use mocko.Base.{
  ◌≡◌, refl, Text, Bool, false, not, ◌&&◌, ◌||◌, List, [], ◌∷◌, ◌++◌, map, filter, contains, ◌==◌,
  text_eq, if◌then◌else◌, arith,
}
use mocko.Control.Filter.{
  unlabeled_key, normalize_label, is_label, get_normalized_selected_labels,
  is_label_filter_selected, toggle_label_filter,
}

-- Two keys of the filter that stand for the same labels.
abbrev pub same_filter : Text → Text → Bool
same_filter a b =
    if a == unlabeled_key
    then b == unlabeled_key
    else not (b == unlabeled_key) && normalize_label a == normalize_label b

abbrev kept : Text → Text → Bool
kept key label = label == unlabeled_key || not (normalize_label label == normalize_label key)

normalized : List Text → List Text
normalized labels = map normalize_label (filter is_label labels)

contains-append :
    (x : Text) (xs ys : List Text) → contains (xs ++ ys) x ≡ contains xs x || contains ys x
contains-append x [] ys = refl
contains-append x (y ∷ xs) ys = ground (arith, contains-append x xs ys)

contains_unlabeled-labels : (xs : List Text) → contains (filter is_label xs) unlabeled_key ≡ false
contains_unlabeled-labels [] = refl
contains_unlabeled-labels (x ∷ xs) = ground (arith, contains_unlabeled-labels xs)

contains_unlabeled-kept :
    (key : Text) (xs : List Text)
    → contains (filter (kept key) xs) unlabeled_key ≡ contains xs unlabeled_key
contains_unlabeled-kept key [] = refl
contains_unlabeled-kept key (x ∷ xs) = ground (arith, contains_unlabeled-kept key xs)

normalized-labels : (xs : List Text) → normalized (filter is_label xs) ≡ normalized xs
unfolding normalized
normalized-labels [] = refl
normalized-labels (x ∷ xs) = ground (arith, normalized-labels xs)

contains-normalized-kept :
    (key n : Text) (xs : List Text)
    → contains (normalized (filter (kept key) xs)) n
      ≡ (contains (normalized xs) n && not (n == normalize_label key))
unfolding normalized
contains-normalized-kept key n [] = refl
contains-normalized-kept key n (x ∷ xs) = ground (arith, contains-normalized-kept key n xs)

contains-normalized-append :
    (n key : Text) (xs : List Text)
    → contains (normalized (xs ++ key ∷ [])) n
      ≡ contains (normalized xs) n || (is_label key && normalize_label key == n)
unfolding normalized
contains-normalized-append n key [] = ground arith
contains-normalized-append n key (x ∷ xs) = ground (arith, contains-normalized-append n key xs)

-- Toggling a key turns what is selected under the keys that stand for the same labels, and under no
-- other: the filter of mocks with no label is one of its own, and labels count whatever their case.
pub toggle_label_filter_lem :
    (selected : List Text) (key other : Text)
    → is_label_filter_selected other (toggle_label_filter selected key) ≡ (
        if same_filter key other
        then not (is_label_filter_selected other selected)
        else is_label_filter_selected other selected)
unfolding toggle_label_filter is_label_filter_selected get_normalized_selected_labels normalized
toggle_label_filter_lem selected key other = ground (
  arith,
  contains-append unlabeled_key selected (key ∷ []),
  contains_unlabeled-labels selected,
  contains_unlabeled-kept key selected,
  normalized-labels selected,
  contains-normalized-kept key (normalize_label other) selected,
  contains-normalized-append (normalize_label other) key selected,
)
