-- ===== src/Control/ListUrl/Kept.antt =====
-- What the address of a list of mocks, as mocko-control/lib/mock/mock-list-url.ts builds it, is read as.
use native.Mathlib.Decide.{ℕ_discrete}
use mocko.Base.{
  ◌⊎◌, Text, txt, ◌≡◌, refl, sym, ap, ◌∙◌, true, false, Option, List, [], ◌∷◌, ◌++◌, map,
  append_assoc, append-nil, contains, is_empty, ◌==◌, All, Elem, arith, text_eq, or_else, inl, inr,
  Bool-cases,
}
use mocko.Base.Dict
use mocko.Control.Filter.{normalize_label}
use mocko.Control.ListUrl.Labels.{
  filled, AreDistinct, unique_labels-filled, unique_labels-again, unique_labels-Elem,
  unique_labels-contains, unique_labels-AreDistinct,
}
use mocko.Control.ListUrl.{
  SearchParams, append_param, get_all, set_if, set_param, append_labels, append_list_params,
  new_mock_params, unique_labels, parse_mock_list_params, build_mock_list_url, build_new_mock_url,
}

other_name : (txt "q" == txt "label") ≡ false
unfolding text_eq ℕ_discrete
other_name = refl

get-append_param :
    (value : Text) (params : SearchParams)
    → Dict.get (txt "q") (append_param (txt "label") value params) ≡ Dict.get (txt "q") params
unfolding Dict.get
get-append_param value [] = ground (arith, other_name)
get-append_param value ((name, other) ∷ params) = ground (arith, get-append_param value params)

get_all-append_param :
    (value : Text) (params : SearchParams)
    → get_all (txt "label") (append_param (txt "label") value params)
      ≡ get_all (txt "label") params ++ value ∷ []
unfolding get_all
get_all-append_param value [] = ground arith
get_all-append_param value ((name, other) ∷ params) =
    ground (arith, get_all-append_param value params)

get-append_labels :
    (labels : List Text) (params : SearchParams)
    → Dict.get (txt "q") (append_labels labels params) ≡ Dict.get (txt "q") params
unfolding append_labels
get-append_labels [] params = refl
get-append_labels (label ∷ labels) params = ground (
  arith,
  get-append_labels labels params,
  get-append_labels labels (append_param (txt "label") label params),
  get-append_param label params,
)

get_all-append_labels :
    (labels : List Text) (params : SearchParams)
    → get_all (txt "label") (append_labels labels params)
      ≡ get_all (txt "label") params ++ filled labels
unfolding append_labels
get_all-append_labels [] params = sym (append-nil _)
get_all-append_labels (label ∷ labels) params = elim (Bool-cases (is_empty label)) [
  | inl none_left ↦ ground (arith, get_all-append_labels labels params)
  | inr some_left ↦ rw some_left (
      get_all-append_labels labels (append_param (txt "label") label params)
      ∙ (ap (λ l. l ++ filled labels) (get_all-append_param label params)
          ∙ append_assoc (get_all (txt "label") params) (label ∷ []) (filled labels)))
]

search_of :
    (search base : Text)
    → or_else (Dict.get (txt "q") (set_if (txt "q") search (set_if (txt "from") base []))) []
      ≡ search
unfolding set_if set_param Dict.get text_eq ℕ_discrete
search_of [] [] = refl
search_of [] (c ∷ base) = refl
search_of (d ∷ search) [] = refl
search_of (d ∷ search) (c ∷ base) = refl

no_labels :
    (search base : Text)
    → get_all (txt "label") (set_if (txt "q") search (set_if (txt "from") base [])) ≡ []
unfolding set_if set_param get_all text_eq ℕ_discrete
no_labels [] [] = refl
no_labels [] (c ∷ base) = refl
no_labels (d ∷ search) [] = refl
no_labels (d ∷ search) (c ∷ base) = refl

-- the parameters behind a `from`, which may be empty
read_params :
    (search : Text) (labels : List Text) (base : Text)
    → parse_mock_list_params (append_list_params search labels (set_if (txt "from") base []))
      ≡ record { search = search; labels = unique_labels [] labels }
unfolding parse_mock_list_params append_list_params
read_params search labels base =
    let params = set_if (txt "q") search (set_if (txt "from") base []) in
    let found = ap (λ o. or_else o []) (get-append_labels labels params) ∙ search_of search base in
    let listed =
      ap (unique_labels [])
        (get_all-append_labels labels params ∙ ap (λ l. l ++ filled labels) (no_labels search base))
      ∙ unique_labels-filled [] labels in
    ap
      (λ (s : Text). record {
        search = s;
        labels = unique_labels [] (get_all (txt "label") (append_labels labels params));
      })
      found
    ∙ ap (λ (l : List Text). record { search = search; labels = l }) listed

abbrev pub IsKept : List Text → Text → Type 0
IsKept kept label =
    (is_empty label ≡ true) ⊎ (contains (map normalize_label kept) (normalize_label label) ≡ true)

unique_labels-IsKept :
    (labels some_of : List Text)
    → ((label : Text) → Elem label some_of → Elem label labels)
    → All (IsKept (unique_labels [] labels)) some_of
unique_labels-IsKept labels [] among = tt
unique_labels-IsKept labels (label ∷ some_of) among = (
  (elim (Bool-cases (is_empty label)) [
    | inl none_left ↦ inl none_left
    | inr some_left ↦
        inr (unique_labels-contains [] labels label (among label (inl refl)) some_left)
  ]),
  unique_labels-IsKept labels some_of (λ other there. among other (inr there)),
)

pub parse-build_mock_list_url :
    (print : SearchParams → Text) (read : Text → SearchParams) (search : Text) (labels : List Text)
    (from : Option Text)
    → read (build_mock_list_url print search labels) ≡ append_list_params search labels []
    → read (build_new_mock_url print search labels from) ≡ new_mock_params search labels from
    → let kept = parse_mock_list_params (read (build_mock_list_url print search labels)) in
      (parse_mock_list_params (read (build_new_mock_url print search labels from)) ≡ kept)
      × ((kept.search ≡ search)
          × (All (IsKept kept.labels) labels
              × ((All (λ l. Elem l labels × (is_empty l ≡ false)) kept.labels
                    × AreDistinct (map normalize_label kept.labels))
                  × (parse_mock_list_params (append_list_params kept.search kept.labels [])
                      ≡ kept))))
unfolding new_mock_params set_if
parse-build_mock_list_url print read search labels from h k =
    let listed = ap parse_mock_list_params h ∙ read_params search labels [] in
    let new = ap parse_mock_list_params k ∙ read_params search labels (or_else from []) in
    let again =
      read_params search (unique_labels [] labels) []
      ∙ ap (λ (l : List Text). record { search = search; labels = l })
          (unique_labels-again [] [] labels (λ n m. m)) in
    rw listed (
      new,
      (
        refl,
        (
          unique_labels-IsKept labels labels (λ label there. there),
          ((unique_labels-Elem [] labels, unique_labels-AreDistinct [] labels), again),
        ),
      ),
    )
