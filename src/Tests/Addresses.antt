-- ===== src/Tests/Addresses.antt =====
-- The theorem on the addresses of lists, at a search with two labels that are one but for their case.
use native.Mathlib.Decide.{ℕ_discrete}
use mocko.Base.{
  ℕ, ◌≡◌, refl, Text, txt, false, some, List, [], ◌∷◌, ◌++◌, text_eq, nat_eq, if◌then◌else◌, All,
  Elem, map, is_empty, ◌==◌, zero, suc,
}
use mocko.Control.Filter.{normalize_label}
use mocko.Control.ListUrl.{
  SearchParams, append_list_params, parse_mock_list_params, build_mock_list_url, build_new_mock_url,
}
use mocko.Control.ListUrl.Labels.{AreDistinct}
use mocko.Control.ListUrl.Kept.{IsKept, parse-build_mock_list_url}

-- no escapes: `name=value&` for each pair
abbrev print : SearchParams → Text
print [] = []
print ((name, value) ∷ params) = name ++ (txt "=" ++ (value ++ (txt "&" ++ print params)))

abbrev labels : List Text
labels = txt "a" ∷ txt "A" ∷ []

-- the part up to a separator, and what is behind it
abbrev until : ℕ → Text → Text × Text
unfolding nat_eq
until separator [] = ([], [])
until separator (c ∷ cs) =
    let (part, rest) = until separator cs in if c == separator then ([], cs) else (c ∷ part, rest)

-- reads as many pairs as the fuel allows
abbrev pairs : ℕ → Text → SearchParams
pairs zero t = []
pairs (suc n) [] = []
pairs (suc n) (c ∷ cs) =
    let (name, behind) = until b'=' (c ∷ cs) in
    let (value, rest) = until b'&' behind in (name, value) ∷ pairs n rest

abbrev read : Text → SearchParams
read address = pairs 10 (until b'?' address).1

parse-build_mock_list_url_example :
    let kept = parse_mock_list_params (read (build_mock_list_url print (txt "x") labels)) in
    (parse_mock_list_params (read (build_new_mock_url print (txt "x") labels (some (txt "7"))))
      ≡ kept)
    × ((kept.search ≡ txt "x")
        × (All (IsKept kept.labels) labels
            × ((All (λ l. Elem l labels × (is_empty l ≡ false)) kept.labels
                  × AreDistinct (map normalize_label kept.labels))
                × (parse_mock_list_params (append_list_params kept.search kept.labels []) ≡ kept))))
unfolding build_mock_list_url build_new_mock_url until nat_eq ℕ_discrete text_eq
parse-build_mock_list_url_example =
    parse-build_mock_list_url print read (txt "x") labels (some (txt "7")) refl refl
