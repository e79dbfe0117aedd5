-- ===== src/Control/ListUrl.antt =====
-- mocko-control/lib/mock/mock-list-url.ts, lib/callback/callback-list-url.ts and
-- lib/flag/flag-list-url.ts: the filters of the lists in the addresses of pages. URLSearchParams is a
-- list of pairs; its `toString` is an argument.
pub mod Labels
pub mod Kept
use mocko.Base.{
  Text, txt, Bool, true, false, not, Option, none, some, List, [], ◌∷◌, ◌++◌, map, filter, contains,
  is_empty, ◌==◌, text_eq, nat_eq, if◌then◌else◌, or_else,
}
use mocko.Base.Dict
use mocko.Base.Dict.{Dict}
use mocko.Control.Filter.{normalize_label}

abbrev pub SearchParams : Type 0
SearchParams = List (Text × Text)

-- `set` of URLSearchParams: of the pairs with the name, the first is changed and the others go
unfoldable pub set_param : Text → Text → SearchParams → SearchParams
set_param name value [] = (name, value) ∷ []
set_param name value ((other, old) ∷ params) =
    if other == name
    then (name, value) ∷ filter (λ (pair : Text × Text). not (pair.0 == name)) params
    else (other, old) ∷ set_param name value params

abbrev pub append_param : Text → Text → SearchParams → SearchParams
append_param name value params = params ++ (name, value) ∷ []

-- `getAll`
unfoldable pub get_all : Text → SearchParams → List Text
get_all name [] = []
get_all name ((other, value) ∷ params) =
    if other == name then value ∷ get_all name params else get_all name params

-- `if (value) searchParams.set(name, value)`
unfoldable pub set_if : Text → Text → SearchParams → SearchParams
unfolding set_param
set_if name value params = if is_empty value then params else set_param name value params

-- the loop over the labels
unfoldable pub append_labels : List Text → SearchParams → SearchParams
append_labels [] params = params
append_labels (label ∷ labels) params =
    if is_empty label
    then append_labels labels params
    else append_labels labels (append_param (txt "label") label params)

unfoldable pub append_list_params : Text → List Text → SearchParams → SearchParams
unfolding set_if append_labels
append_list_params search labels params = append_labels labels (set_if (txt "q") search params)

-- a missing `from` is an empty one
unfoldable pub new_mock_params : Text → List Text → (from : Option Text) → SearchParams
unfolding append_list_params set_if
new_mock_params search labels from =
    append_list_params search labels (set_if (txt "from") (or_else from []) [])

pub record MockListParams : Type 0 where
  pub search : Text
  pub labels : List Text

-- the loop of `parseMockListParams`, with the labels that it has seen
unfoldable pub unique_labels : List Text → List Text → List Text
unique_labels seen [] = []
unique_labels seen (label ∷ labels) =
    let skipped = unique_labels seen labels in
    let kept = label ∷ unique_labels (normalize_label label ∷ seen) labels in
    if is_empty label
    then skipped
    else if contains seen (normalize_label label)
    then skipped
    else kept

unfoldable pub parse_mock_list_params : SearchParams → MockListParams
unfolding get_all unique_labels
parse_mock_list_params params = record {
  search = or_else (Dict.get (txt "q") params) [];
  labels = unique_labels [] (get_all (txt "label") params);
}

module _ (print : SearchParams → Text) where
  abbrev pub with_query : Text → Text → Text
  with_query path query = if is_empty query then path else path ++ (txt "?" ++ query)

  unfoldable pub build_mock_list_url : Text → List Text → Text
  unfolding append_list_params
  build_mock_list_url search labels =
      with_query (txt "/mocks") (print (append_list_params search labels []))

  unfoldable pub build_mock_url : Text → Text → List Text → Text
  unfolding append_list_params
  build_mock_url id search labels =
      with_query (txt "/mocks/" ++ id) (print (append_list_params search labels []))

  unfoldable pub build_new_mock_url : Text → List Text → Option Text → Text
  unfolding new_mock_params
  build_new_mock_url search labels from =
      with_query (txt "/mocks/new") (print (new_mock_params search labels from))

  abbrev pub with_search : Text → Text → Text
  with_search pathname search =
      if is_empty search then pathname else pathname ++ (txt "?" ++ print ((txt "q", search) ∷ []))

  unfoldable pub build_callback_list_url : Text → Text
  build_callback_list_url search = with_search (txt "/callbacks") search

  unfoldable pub build_callback_url : Text → Text → Text
  build_callback_url id search = with_search (txt "/callbacks/" ++ id) search

  unfoldable pub build_new_callback_url : Text → Option Text → Text
  unfolding set_if
  build_new_callback_url search from =
      with_query (txt "/callbacks/new")
        (print (set_if (txt "from") (or_else from []) (set_if (txt "q") search [])))

  unfoldable pub build_flag_list_url : Text → (prefix search : Option Text) → Text
  unfolding set_if
  build_flag_list_url base_path prefix search =
      with_query base_path (
        print (set_if (txt "q") (or_else search []) (set_if (txt "prefix") (or_else prefix []) [])))

unfoldable pub parse_callback_list_params : SearchParams → Text
parse_callback_list_params params = or_else (Dict.get (txt "q") params) []
