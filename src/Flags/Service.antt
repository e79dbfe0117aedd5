-- ===== src/Flags/Service.antt =====
-- `listFlags` of mocko-core/src/api/flag/flag.service.ts, over the sorted live keys that the
-- repository lists. `limit` is FLAGS_LIST-LIMIT.
pub mod Totals
use mocko.Base.{
  ℕ, suc, ◌+◌, Text, to_lower_case, ends_with, includes, drop_prefix, is_empty, Bool, true, false,
  not, ◌||◌, Option, none, some, List, [], ◌∷◌, ◌++◌, map, length, contains, leb, if◌then◌else◌,
  or_else, ◌==◌, nat_eq, text_eq,
}
use mocko.Base.Dict
use mocko.Base.Dict.{Dict}
use mocko.Flags.Keys.{colon}

pub record GroupCounts : Type 0 where
  pub total : ℕ
  pub matches : ℕ

pub data FlagKeyDto : Type 0 where
  prefix : (name : Text) (count match_count : Option ℕ) → FlagKeyDto
  flag : (name : Text) → FlagKeyDto

pub record FlagListDto : Type 0 where
  pub flag_keys : List FlagKeyDto
  pub is_truncated : Bool
  pub count : ℕ
  pub match_count : ℕ

-- The variables of the loop.
pub record Listing : Type 0 where
  pub counts : Dict Text GroupCounts
  pub groups : List Text
  pub flags : List Text

unfoldable pub normalize_prefix : Text → Text
normalize_prefix p =
    if is_empty p then [] else if ends_with p (colon ∷ []) then p else p ++ colon ∷ []

-- `relativeKey.split(':')[0]`
pub before_colon : Text → Text
before_colon [] = []
before_colon (c ∷ cs) = let rest = before_colon cs in if c == colon then [] else c ∷ rest

-- `relativeKey.includes(':') ? relativeKey.split(':')[0] : relativeKey`
unfoldable pub group_name : Text → Text
unfolding before_colon nat_eq
group_name relative = if includes relative (colon ∷ []) then before_colon relative else relative

-- `!normalizedSearch || key.toLowerCase().includes(normalizedSearch)`
unfoldable pub matches_search : Text → Text → Bool
matches_search search key = is_empty search || includes (to_lower_case key) search

-- `groups.add(name)` on a `Set`
unfoldable pub set_add : Text → List Text → List Text
set_add name groups = if contains groups name then groups else groups ++ name ∷ []

abbrev pub no_counts : GroupCounts
no_counts = record { total = 0; matches = 0 }

-- the counts after one more key
unfoldable pub counted : Text → Bool → Dict Text GroupCounts → Dict Text GroupCounts
counted name matched counts =
    let current = or_else (Dict.get name counts) no_counts in
    Dict.set name
      (record {
        total = current.total + 1;
        matches = if matched then current.matches + 1 else current.matches;
      })
      counts

-- what a key that matches adds
unfoldable pub listed : Text → Listing → Listing
unfolding set_add
listed relative s =
    if includes relative (colon ∷ [])
    then record s { groups = set_add (group_name relative) s.groups }
    else record s { flags = s.flags ++ relative ∷ [] }

-- `key.substring(normalizedPrefix.length)`
abbrev pub relative_key : Text → Text → Text
relative_key normalized_prefix key = drop_prefix key normalized_prefix

module _ (limit : ℕ) (normalized_prefix search : Text) where
  -- The loop, and whether it stopped at the limit.
  unfoldable pub list_from : List Text → Listing → Listing × Bool
  list_from [] s = (s, false)
  list_from (key ∷ keys) s =
      let relative = relative_key normalized_prefix key in
      let matched = matches_search search key in
      let s' : Listing = record s { counts = counted (group_name relative) matched s.counts } in
      let s'' : Listing = listed relative s' in
      let skipped = list_from keys s in
      let unlisted = list_from keys s' in
      let more = list_from keys s'' in
      if is_empty relative
      then skipped
      else if not matched
      then unlisted
      else if leb limit (length s''.groups + length s''.flags)
      then (s'', true)
      else more

abbrev pub sum_total : List GroupCounts → ℕ
sum_total [] = 0
sum_total (c ∷ cs) = c.total + sum_total cs

abbrev pub sum_matches : List GroupCounts → ℕ
sum_matches [] = 0
sum_matches (c ∷ cs) = c.matches + sum_matches cs

-- `counts.get(name)?.total` and `.matches`
abbrev pub total_of : Option GroupCounts → Option ℕ
total_of none = none
total_of (some c) = some c.total

abbrev pub matches_of : Option GroupCounts → Option ℕ
matches_of none = none
matches_of (some c) = some c.matches

unfoldable pub dto_of : Listing → Bool → FlagListDto
dto_of s truncated = record {
  flag_keys =
      map
        (λ name.
          prefix name (total_of (Dict.get name s.counts)) (matches_of (Dict.get name s.counts)))
        s.groups
      ++ map (λ name. flag name) s.flags;
  is_truncated = truncated;
  count = sum_total (Dict.values s.counts);
  match_count = sum_matches (Dict.values s.counts);
}

-- `keys` is what the repository lists for the normalized prefix; no search is the empty text
unfoldable pub list_flags : ℕ → Text → Text → List Text → FlagListDto
unfolding list_from dto_of
list_flags limit raw_prefix search keys =
    let (s, truncated) =
      list_from limit (normalize_prefix raw_prefix) (to_lower_case search) keys
        (record { counts = []; groups = []; flags = [] }) in
    dto_of s truncated
