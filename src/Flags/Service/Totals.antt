-- ===== src/Flags/Service/Totals.antt =====
-- What the listing holds.
use mocko.Base.{
  ℕ, suc, ◌+◌, ◌≤◌, ◌<◌, ◌≡◌, ◌∙◌, Bool, false, Text, to_lower_case, is_empty, List, [], ◌∷◌, map,
  arith, length, length-append, length-map, if◌then◌else◌, text_eq,
}
use mocko.Base.Dict
use mocko.Base.Dict.{Dict}
use mocko.Flags.Service.{
  GroupCounts, prefix, flag, Listing, normalize_prefix, group_name, matches_search, counted, listed,
  relative_key, list_from, sum_total, sum_matches, dto_of, list_flags, total_of, matches_of,
}

abbrev entries : Listing → ℕ
entries s = length s.groups + length s.flags

abbrev empty : Listing
empty = record { counts = []; groups = []; flags = [] }

listed-size : (relative : Text) (s : Listing) → entries (listed relative s) ≤ entries s + 1
unfolding listed
listed-size relative s = ground (
  arith,
  length-append {0} s.groups (group_name relative ∷ []),
  length-append {0} s.flags (relative ∷ []),
)

listed-counts : (relative : Text) (s : Listing) → (listed relative s).counts ≡ s.counts
unfolding listed
listed-counts relative s = ground arith

dto_of-length : (s : Listing) (truncated : Bool) → length (dto_of s truncated).flag_keys ≡ entries s
unfolding dto_of
dto_of-length s truncated =
    let group = λ (name : Text).
      prefix name (total_of (Dict.get name s.counts)) (matches_of (Dict.get name s.counts)) in
    length-append (map group s.groups) (map (λ name. flag name) s.flags)
    ∙ omega (arith, length-map group s.groups, length-map (λ (name : Text). flag name) s.flags)

-- How many keys lie below the prefix, and how many of these match the search.
module _ (normalized_prefix search : Text) where
  abbrev pub count_below : List Text → ℕ
  count_below [] = 0
  count_below (key ∷ keys) =
      let rest = count_below keys in
      if is_empty (relative_key normalized_prefix key) then rest else suc rest

  abbrev pub count_matches : List Text → ℕ
  count_matches [] = 0
  count_matches (key ∷ keys) =
      let rest = count_matches keys in
      if is_empty (relative_key normalized_prefix key)
      then rest
      else if matches_search search key
      then suc rest
      else rest

sum-counted :
    (name : Text) (matched : Bool) (counts : Dict Text GroupCounts)
    → (sum_total (Dict.values (counted name matched counts)) ≡ sum_total (Dict.values counts) + 1)
      × (sum_matches (Dict.values (counted name matched counts))
          ≡ sum_matches (Dict.values counts) + (if matched then 1 else 0))
unfolding counted Dict.get Dict.set
sum-counted name matched [] = ground arith
sum-counted name matched ((j, c) ∷ counts) = ground (arith, sum-counted name matched counts)

module _ (limit : ℕ) (normalized_prefix search : Text) where
  list_from-size :
      (keys : List Text) (s : Listing)
      → entries s < limit
      → entries (list_from limit normalized_prefix search keys s).0 ≤ limit
  unfolding list_from
  list_from-size [] s h = omega arith
  list_from-size (key ∷ keys) s h =
      let relative = relative_key normalized_prefix key in
      let s' : Listing = record s {
        counts = counted (group_name relative) (matches_search search key) s.counts;
      } in
      ground (
        arith,
        list_from-size keys s,
        list_from-size keys s',
        list_from-size keys (listed relative s'),
        listed-size relative s',
      )

  -- Unless the loop stopped at the limit, each key below the prefix is counted once.
  list_from-sums :
      (keys : List Text) (s : Listing)
      → (list_from limit normalized_prefix search keys s).1 ≡ false
      → (sum_total (Dict.values (list_from limit normalized_prefix search keys s).0.counts)
          ≡ sum_total (Dict.values s.counts) + count_below normalized_prefix search keys)
        × (sum_matches (Dict.values (list_from limit normalized_prefix search keys s).0.counts)
            ≡ sum_matches (Dict.values s.counts) + count_matches normalized_prefix search keys)
  unfolding list_from
  list_from-sums [] s h = (omega arith, omega arith)
  list_from-sums (key ∷ keys) s h =
      let relative = relative_key normalized_prefix key in
      let matched = matches_search search key in
      let s' : Listing = record s { counts = counted (group_name relative) matched s.counts } in
      ground (
        arith,
        list_from-sums keys s,
        list_from-sums keys s',
        list_from-sums keys (listed relative s'),
        listed-counts relative s',
        sum-counted (group_name relative) matched s.counts,
      )

  list_from-sums-le :
      (keys : List Text) (s : Listing)
      → sum_matches (Dict.values s.counts) ≤ sum_total (Dict.values s.counts)
      → sum_matches (Dict.values (list_from limit normalized_prefix search keys s).0.counts)
        ≤ sum_total (Dict.values (list_from limit normalized_prefix search keys s).0.counts)
  unfolding list_from
  list_from-sums-le [] s h = h
  list_from-sums-le (key ∷ keys) s h =
      let relative = relative_key normalized_prefix key in
      let matched = matches_search search key in
      let s' : Listing = record s { counts = counted (group_name relative) matched s.counts } in
      ground (
        arith,
        list_from-sums-le keys s,
        list_from-sums-le keys s',
        list_from-sums-le keys (listed relative s'),
        listed-counts relative s',
        sum-counted (group_name relative) matched s.counts,
      )

-- The list has at most `limit` keys, if `limit` is not zero, and its count is never below its match
-- count.
pub list_flags_bounds :
    (limit : ℕ) (raw_prefix query : Text) (keys : List Text)
    → 0 < limit
    → (length (list_flags limit raw_prefix query keys).flag_keys ≤ limit)
      × ((list_flags limit raw_prefix query keys).match_count
          ≤ (list_flags limit raw_prefix query keys).count)
unfolding list_flags
list_flags_bounds limit raw_prefix query keys pos =
    let p = normalize_prefix raw_prefix in
    let q = to_lower_case query in
    let (s, truncated) = list_from limit p q keys empty in
    (
      omega (arith, dto_of-length s truncated, list_from-size limit p q keys empty (omega arith)),
      unfold dto_of in list_from-sums-le limit p q keys empty (omega arith),
    )

-- A list that is not truncated counts every key below the prefix, groups included, and its match
-- count is the number of those that match the search.
pub list_flags_counts :
    (limit : ℕ) (raw_prefix query : Text) (keys : List Text)
    → (list_flags limit raw_prefix query keys).is_truncated ≡ false
    → ((list_flags limit raw_prefix query keys).count
        ≡ count_below (normalize_prefix raw_prefix) (to_lower_case query) keys)
      × ((list_flags limit raw_prefix query keys).match_count
          ≡ count_matches (normalize_prefix raw_prefix) (to_lower_case query) keys)
unfolding list_flags
list_flags_counts limit raw_prefix query keys full =
    let sums =
      list_from-sums limit (normalize_prefix raw_prefix) (to_lower_case query) keys empty full in
    (omega (arith, sums), omega (arith, sums))
