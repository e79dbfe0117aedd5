-- ===== src/Control/Filter/Keys.antt =====
-- The keys that getLabelFilterKeys of mocko-control/lib/mock/filter.ts offers: each label once,
-- whatever its case.
use mocko.Base.{
  ℕ, ◌+◌, ◌≡◌, ◌≢◌, refl, ap, ◌∙◌, Text, Bool, true, false, not, ◌&&◌, ◌||◌, some, List, [], ◌∷◌,
  ◌++◌, filter, any, or_else, is_some, is_empty, contains, sort, insert_sorted, to_lower_case, ◌==◌,
  text_eq, if◌then◌else◌, arith, Bool-cases, Option-cases, inl, inr,
}
use mocko.Base.Dict
use mocko.Base.Dict.{Dict, get-set, NodupKeys, set-NodupKeys}
use mocko.Control.Filter.{
  MockDto, Tally, unlabeled_key, normalize_label, is_label, tally_label, tally_labels, no_tally,
  labels_of, selected_keys, get_available_labels, get_label_filter_keys, compare_labels_by_count,
  count_in,
}

-- How many keys of a list have a normal form.
abbrev pub count_form : Text → List Text → ℕ
count_form n [] = 0
count_form n (key ∷ keys) =
    let rest = count_form n keys in if normalize_label key == n then rest + 1 else rest

abbrev pub has_form : Text → List Text → Bool
has_form n labels = any (λ label. normalize_label label == n) labels

-- the labels among the keys that are selected
abbrev pub has_selected : Text → List Text → Bool
has_selected n labels = any (λ label. is_label label && normalize_label label == n) labels

count-append :
    (n : Text) (xs ys : List Text) → count_form n (xs ++ ys) ≡ count_form n xs + count_form n ys
count-append n [] ys = ground arith
count-append n (x ∷ xs) ys = ground (arith, count-append n xs ys)

count-insert_sorted :
    (n : Text) (le : Text → Text → Bool) (x : Text) (xs : List Text)
    → count_form n (insert_sorted le x xs) ≡ count_form n (x ∷ xs)
unfolding insert_sorted
count-insert_sorted n le x [] = refl
count-insert_sorted n le x (y ∷ xs) = ground (arith, count-insert_sorted n le x xs)

count-sort :
    (n : Text) (le : Text → Text → Bool) (xs : List Text)
    → count_form n (sort le xs) ≡ count_form n xs
unfolding sort
count-sort n le [] = refl
count-sort n le (x ∷ xs) =
    ground (arith, count-insert_sorted n le x (sort le xs), count-sort n le xs)

count-unseen :
    (n : Text) (seen xs : List Text)
    → count_form n (filter (λ label. not (contains seen (normalize_label label))) xs)
      ≡ (if contains seen n then 0 else count_form n xs)
count-unseen n seen [] = ground arith
count-unseen n seen (x ∷ xs) = elim (text_eq.dec (normalize_label x) n) [
  | yes e ↦ let same = ap (contains seen) e in ground (arith, count-unseen n seen xs)
  | no d ↦ ground (arith, count-unseen n seen xs)
]

-- Each label stands under its normal form.
abbrev AreForms : Dict Text Text → Type 0
AreForms d = (n label : Text) → Dict.get n d ≡ some label → normalize_label label ≡ n

tally_label-AreForms :
    (label : Text) (t : Tally) → AreForms t.displays → AreForms (tally_label label t).displays
unfolding tally_label
tally_label-AreForms label t h n l =
    ground (arith, h n l, get-set n (normalize_label label) label t.displays)

tally_labels-AreForms :
    (labels : List Text) (t : Tally)
    → AreForms t.displays
    → AreForms (tally_labels labels t).displays
unfolding tally_labels
tally_labels-AreForms [] t h = h
tally_labels-AreForms (label ∷ labels) t h =
    tally_labels-AreForms labels (tally_label label t) (tally_label-AreForms label t h)

tally_labels-NodupKeys :
    (labels : List Text) (t : Tally)
    → NodupKeys t.displays
    → NodupKeys (tally_labels labels t).displays
unfolding tally_labels tally_label
tally_labels-NodupKeys [] t h = h
tally_labels-NodupKeys (label ∷ labels) t h =
    elim (Bool-cases (is_some (Dict.get (normalize_label label) t.displays))) [
      | inl there ↦ tally_labels-NodupKeys labels (tally_label label t) (rw there h)
      | inr new ↦
          tally_labels-NodupKeys labels (tally_label label t)
            (rw new (set-NodupKeys (normalize_label label) label t.displays h))
    ]

get-tally_labels :
    (n : Text) (labels : List Text) (t : Tally)
    → is_some (Dict.get n (tally_labels labels t).displays)
      ≡ is_some (Dict.get n t.displays) || has_form n labels
unfolding tally_labels tally_label
get-tally_labels n [] t = ground arith
get-tally_labels n (label ∷ labels) t = ground (
  arith,
  get-tally_labels n labels (tally_label label t),
  get-set n (normalize_label label) label t.displays,
)

count-values :
    (n : Text) (d : Dict Text Text)
    → NodupKeys d
    → AreForms d
    → count_form n (Dict.values d) ≡ (if is_some (Dict.get n d) then 1 else 0)
unfolding Dict.get
count-values n [] h f = ground arith
count-values n ((k, label) ∷ d) h f =
    let form : normalize_label label ≡ k = f k label (ground arith) in
    let later : AreForms d = λ m l e. f m l (ground arith) in
    ground (arith, count-values n d h.1 later)

display-form :
    (displays : Dict Text Text) (label : Text)
    → AreForms displays
    → normalize_label (or_else (Dict.get (normalize_label label) displays) label)
      ≡ normalize_label label
display-form displays label f = elim (Option-cases (Dict.get (normalize_label label) displays)) [
  | inl n ↦ rw n refl
  | inr (shown, e) ↦ rw e (f (normalize_label label) shown e)
]

count-selected_keys :
    (displays : Dict Text Text) (n : Text) (labels seen : List Text)
    → AreForms displays
    → (count_form n (selected_keys displays labels seen).0
        ≡ (if not (contains seen n) && has_selected n labels then 1 else 0))
      × (contains (selected_keys displays labels seen).1 n
          ≡ contains seen n || has_selected n labels)
unfolding selected_keys
count-selected_keys displays n [] seen f = ground arith
count-selected_keys displays n (label ∷ labels) seen f =
    let form : normalize_label (or_else (Dict.get (normalize_label label) displays) label)
        ≡ normalize_label label =
      display-form displays label f in
    ground (
      arith,
      count-selected_keys displays n labels seen f,
      count-selected_keys displays n labels (normalize_label label ∷ seen) f,
    )

unlabeled_form : normalize_label unlabeled_key ≡ unlabeled_key
unfolding to_lower_case
unlabeled_form = refl

count-unlabeled :
    (n : Text) (shown : Bool)
    → n ≢ unlabeled_key
    → count_form n (if shown then unlabeled_key ∷ [] else []) ≡ 0
count-unlabeled n false other = refl
count-unlabeled n true other = ground (arith, unlabeled_form)

module _ (locale_le : Text → Text → Bool) where
  count-get_available_labels :
      (n : Text) (mocks : List MockDto)
      → count_form n (get_available_labels locale_le mocks)
        ≡ (if has_form n (labels_of mocks) then 1 else 0)
  unfolding get_available_labels Dict.get
  count-get_available_labels n mocks =
      let labels = labels_of mocks in
      let t = tally_labels labels no_tally in
      count-sort n (compare_labels_by_count locale_le (count_in locale_le t))
        (Dict.values t.displays)
      ∙ (count-values n t.displays (tally_labels-NodupKeys labels no_tally tt)
            (tally_labels-AreForms labels no_tally (λ m l e. cc))
          ∙ ap (λ b. if b then 1 else 0) (get-tally_labels n labels no_tally))

  -- A label other than the key of the mocks with no label is offered exactly once, whatever the cases in
  -- which it is written, if it is selected or is on one of the mocks that are shown; and not at all
  -- otherwise.
  pub get_label_filter_keys_lem :
      (mocks filtered : List MockDto) (selected : List Text) (n : Text)
      → n ≢ unlabeled_key
      → count_form n (get_label_filter_keys locale_le mocks filtered selected)
        ≡ (if has_selected n selected || has_form n (labels_of filtered) then 1 else 0)
  unfolding get_label_filter_keys Dict.get
  get_label_filter_keys_lem mocks filtered selected n other =
      let t = tally_labels (labels_of mocks) no_tally in
      let keys = (selected_keys t.displays selected []).0 in
      let seen = (selected_keys t.displays selected []).1 in
      let visible =
        filter (λ label. not (contains seen (normalize_label label)))
          (get_available_labels locale_le filtered) in
      let shown =
        contains selected unlabeled_key
        || (not (is_empty t.counts) && any (λ (mock : MockDto). is_empty mock.labels) filtered) in
      let tail = if shown then unlabeled_key ∷ [] else [] in
      let le = compare_labels_by_count locale_le (count_in locale_le t) in
      let counted =
        count-selected_keys t.displays n selected []
          (tally_labels-AreForms (labels_of mocks) no_tally (λ m l e. cc)) in
      ground (
        arith,
        count-append n (sort le keys) (visible ++ tail),
        count-append n visible tail,
        count-sort n le keys,
        count-unseen n seen (get_available_labels locale_le filtered),
        count-get_available_labels n filtered,
        count-unlabeled n shown other,
      )
