-- ===== src/Control/Filter.antt =====
-- mocko-control/lib/mock/filter.ts, utils/labels.ts, callback/filter.ts and callback/pending-sort.ts:
-- what the lists of the panel show. `locale_le` is the order of `localeCompare`.
pub mod Toggles
pub mod Keys
pub mod Pending
use mocko.Base.{
  ℕ, ◌+◌, ◌≡◌, refl, Text, txt, Bool, true, false, not, ◌&&◌, ◌||◌, Option, none, some, List, [],
  ◌∷◌, ◌++◌, map, filter, any, all, length, ltb, leb, sort, or_else, is_some, is_empty, trim,
  to_lower_case, includes, contains, ◌==◌, nat_eq, text_eq, if◌then◌else◌,
}
use mocko.Base.Dict
use mocko.Base.Dict.{Dict}

-- what the filters read of a `MockDto`
pub record MockDto : Type 0 where
  pub name : Text
  pub path : Text
  pub method : Text
  pub file_path : Option Text
  pub labels : List Text

abbrev pub unlabeled_key : Text
unlabeled_key = txt "__unlabeled__"

unfoldable pub matches_mock_search : MockDto → Text → Bool
matches_mock_search mock search =
    let query = to_lower_case (trim search) in
    if is_empty query
    then true
    else any (λ value. includes (to_lower_case value) query)
        (mock.name ∷ mock.path ∷ mock.method ∷ or_else mock.file_path [] ∷ mock.labels)

abbrev pub normalize_label : Text → Text
normalize_label = to_lower_case

abbrev pub is_label : Text → Bool
is_label label = not (label == unlabeled_key)

unfoldable pub get_normalized_selected_labels : List Text → List Text
get_normalized_selected_labels selected = map normalize_label (filter is_label selected)

-- the filter by the labels that are selected
unfoldable pub has_selected_labels : List Text → MockDto → Bool
has_selected_labels selected mock =
    all
      (λ label.
        if label == unlabeled_key
        then is_empty mock.labels
        else contains (map normalize_label mock.labels) (normalize_label label))
      selected

unfoldable pub filter_mocks : List MockDto → Text → List Text → List MockDto
unfolding matches_mock_search has_selected_labels
filter_mocks mocks search selected =
    let found =
      if is_empty search then mocks else filter (λ mock. matches_mock_search mock search) mocks in
    if is_empty selected then found else filter (has_selected_labels selected) found

-- counts of labels and the way each is first written, by their normal form
pub record Tally : Type 0 where
  pub counts : Dict Text ℕ
  pub displays : Dict Text Text

abbrev pub no_tally : Tally
no_tally = record { counts = []; displays = [] }

unfoldable pub tally_label : Text → Tally → Tally
tally_label label t =
    let normalized = normalize_label label in
    record {
      counts = Dict.set normalized (or_else (Dict.get normalized t.counts) 0 + 1) t.counts;
      displays =
          if is_some (Dict.get normalized t.displays)
          then t.displays
          else Dict.set normalized label t.displays;
    }

abbrev pub labels_of : List MockDto → List Text
labels_of [] = []
labels_of (mock ∷ mocks) = mock.labels ++ labels_of mocks

unfoldable pub tally_labels : List Text → Tally → Tally
unfolding tally_label
tally_labels [] t = t
tally_labels (label ∷ labels) t = tally_labels labels (tally_label label t)

-- the keys of the labels that are selected, and the normal forms that were seen
unfoldable pub selected_keys : Dict Text Text → List Text → List Text → List Text × List Text
selected_keys displays [] seen = ([], seen)
selected_keys displays (label ∷ labels) seen =
    let normalized = normalize_label label in
    let skipped = selected_keys displays labels seen in
    let taken : List Text × List Text =
      let (keys, seen') = selected_keys displays labels (normalized ∷ seen) in
      (or_else (Dict.get normalized displays) label ∷ keys, seen') in
    if label == unlabeled_key || contains seen normalized then skipped else taken

module _ (locale_le : Text → Text → Bool) where
  -- `compareLabelsByCount(countOf)(a, b) <= 0`
  unfoldable pub compare_labels_by_count : (Text → ℕ) → Text → Text → Bool
  unfolding nat_eq
  compare_labels_by_count count_of a b =
      let count_a = count_of (to_lower_case a) in
      let count_b = count_of (to_lower_case b) in
      if count_a == count_b
      then (if length a == length b then locale_le a b else ltb (length a) (length b))
      else ltb count_b count_a

  abbrev pub count_in : Tally → Text → ℕ
  count_in t normalized = or_else (Dict.get normalized t.counts) 0

  unfoldable pub get_available_labels : List MockDto → List Text
  unfolding tally_labels compare_labels_by_count
  get_available_labels mocks =
      let t = tally_labels (labels_of mocks) no_tally in
      sort (compare_labels_by_count (count_in t)) (Dict.values t.displays)

  unfoldable pub get_label_filter_keys : (mocks filtered : List MockDto) → List Text → List Text
  unfolding get_available_labels tally_labels selected_keys compare_labels_by_count
  get_label_filter_keys mocks filtered selected =
      let t = tally_labels (labels_of mocks) no_tally in
      let (keys, seen) = selected_keys t.displays selected [] in
      let unselected_visible =
        filter (λ label. not (contains seen (normalize_label label)))
          (get_available_labels filtered) in
      let show_unlabeled =
        contains selected unlabeled_key
        || (not (is_empty t.counts) && any (λ mock. is_empty mock.labels) filtered) in
      sort (compare_labels_by_count (count_in t)) keys
      ++ (unselected_visible ++ (if show_unlabeled then unlabeled_key ∷ [] else []))

unfoldable pub is_label_filter_selected : Text → List Text → Bool
unfolding get_normalized_selected_labels
is_label_filter_selected key selected =
    if key == unlabeled_key
    then contains selected unlabeled_key
    else contains (get_normalized_selected_labels selected) (normalize_label key)

unfoldable pub toggle_label_filter : List Text → Text → List Text
unfolding get_normalized_selected_labels
toggle_label_filter selected key =
    if key == unlabeled_key
    then (if contains selected unlabeled_key
        then filter is_label selected
        else selected ++ key ∷ [])
    else if contains (get_normalized_selected_labels selected) (normalize_label key)
    then filter
        (λ label. label == unlabeled_key || not (normalize_label label == normalize_label key))
        selected
    else selected ++ key ∷ []

-- what the search reads of a `CallbackDto`
pub record CallbackDto : Type 0 where
  pub slug : Text
  pub name : Option Text
  pub method : Text
  pub url : Option Text
  pub host : Option Text
  pub path : Option Text

-- `callback.host ? `@${callback.host}` : ""`
abbrev pub shown_host : Option Text → Text
shown_host none = []
shown_host (some host) = if is_empty host then [] else 64 ∷ host

unfoldable pub matches_callback_search : CallbackDto → Text → Bool
matches_callback_search callback search =
    let query = to_lower_case (trim search) in
    if is_empty query
    then true
    else any (λ value. includes (to_lower_case value) query)
        (callback.slug
          ∷ or_else callback.name []
          ∷ callback.method
          ∷ or_else callback.url []
          ∷ shown_host callback.host
          ∷ or_else callback.path []
          ∷ [])

unfoldable pub filter_callbacks : List CallbackDto → Text → List CallbackDto
unfolding matches_callback_search
filter_callbacks callbacks search =
    if is_empty search
    then callbacks
    else filter (λ callback. matches_callback_search callback search) callbacks

-- what the order reads of a `PendingCallbackDto`
pub record PendingDto : Type 0 where
  pub id : Text
  pub due_at : ℕ
  pub held_at : Option ℕ

abbrev pub is_held : PendingDto → Bool
is_held item = is_some item.held_at

unfoldable pub sort_pending_callbacks : List PendingDto → List PendingDto
sort_pending_callbacks pending =
    let held =
      sort (λ a b. leb (or_else b.held_at 0) (or_else a.held_at 0)) (filter is_held pending) in
    let scheduled =
      sort (λ a b. leb a.due_at b.due_at) (filter (λ item. not (is_held item)) pending) in
    held ++ scheduled
