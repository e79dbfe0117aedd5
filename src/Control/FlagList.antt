-- ===== src/Control/FlagList.antt =====
-- `listFlags` of mocko-control/lib/store/redis-store.ts: one level of the tree of flag keys, from the
-- pages of SCAN. The loop over a page's keys has the counts and the answer of
-- mocko-core/src/api/flag/flag.service.ts; its break, which sets the cursor to "0", ends both loops.
pub mod Agreement
use mocko.Base.{
  ℕ, ◌+◌, Text, txt, Bool, true, false, not, Option, none, some, List, [], ◌∷◌, ◌++◌, length, leb,
  or_else, starts_with, includes, drop, is_empty, to_lower_case, if◌then◌else◌,
}
use mocko.Control.Scan.{do_scan}
use mocko.Flags.Keys.{colon}
use mocko.Flags.Service.{
  Listing, FlagListDto, group_name, matches_search, counted, set_add, relative_key,
  normalize_prefix, dto_of,
}

-- `key.replace(part, "")`: the first place of `part`, which is not empty
unfoldable pub remove_first : Text → Text → Text
remove_first part [] = []
remove_first part (c ∷ cs) =
    let rest = remove_first part cs in
    if starts_with (c ∷ cs) part then drop (length part) (c ∷ cs) else c ∷ rest

-- `${this.redisPrefix}${FLAG_PREFIX}`
abbrev pub flags_at : Text → Text
flags_at redis_prefix = redis_prefix ++ txt "flags:"

module _ (redis_prefix : Text) (limit : ℕ) (normalized_prefix search : Text) where
  -- The loop over a page's keys, and whether it breaks.
  unfoldable pub visit_all : List Text → Listing → Listing × Bool
  unfolding remove_first
  visit_all [] s = (s, false)
  visit_all (key ∷ keys) s =
      let full_key = remove_first (flags_at redis_prefix) key in
      let relative = relative_key normalized_prefix full_key in
      let matching = matches_search search full_key in
      let counts = counted (group_name relative) matching s.counts in
      let groups =
        if includes relative (colon ∷ [])
        then set_add (group_name relative) s.groups
        else s.groups in
      let flags = if includes relative (colon ∷ []) then s.flags else s.flags ++ relative ∷ [] in
      let skipped = visit_all keys s in
      let unlisted = visit_all keys (record s { counts = counts }) in
      let more = visit_all keys (record { counts = counts; groups = groups; flags = flags }) in
      if is_empty relative
      then skipped
      else if not matching
      then unlisted
      else if leb limit (length groups + length flags)
      then (record { counts = counts; groups = groups; flags = flags }, true)
      else more

  unfoldable pub list_page : ℕ → List Text → Listing × Bool → Bool × (Listing × Bool)
  unfolding visit_all
  list_page call keys (s, is_truncated) = let (s', broke) = visit_all keys s in (broke, (s', broke))

-- `scan` is SCAN with the pattern of the prefix
unfoldable pub list_flags :
    Text
    → ℕ
    → (prefix : Text) → (search : Option Text) → (scan : ℕ → Text → Text × List Text) → (fuel : ℕ)
    → Option FlagListDto
unfolding list_page
list_flags redis_prefix limit prefix search scan fuel =
    let normalized_search = to_lower_case (or_else search []) in
    elim (do_scan scan (list_page redis_prefix limit (normalize_prefix prefix) normalized_search)
      fuel 0 (txt "0") (record { counts = []; groups = []; flags = [] }, false)) [
        | none ↦ none
        | some (s, is_truncated) ↦ some (dto_of s is_truncated)
      ]
