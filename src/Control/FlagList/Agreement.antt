-- ===== src/Control/FlagList/Agreement.antt =====
-- The listing of the flags in Redis against the one of the flags in memory.
use mocko.Base.{
  ℕ, suc, ◌≤◌, ◌≡◌, refl, ap, ◌∙◌, Text, txt, Bool, true, false, Option, none, some, List, [], ◌∷◌,
  ◌++◌, map, length, length-map, arith, or_else, starts_with, drop, to_lower_case, nat_eq,
  if◌then◌else◌,
}
use mocko.Control.Scan.{Iteration, over_pages, do_scan-over_pages}
use mocko.Flags.Service
use mocko.Flags.Service.{
  Listing, FlagListDto, list_from, listed, group_name, matches_search, counted, relative_key,
  normalize_prefix, dto_of,
}
use mocko.Control.FlagList.{remove_first, flags_at, visit_all, list_page, list_flags}

starts_with-append : (p s : Text) → starts_with (p ++ s) p ≡ true
unfolding starts_with
starts_with-append [] [] = refl
starts_with-append [] (c ∷ s) = refl
starts_with-append (c ∷ p) s = ground (arith, starts_with-append p s)

pub drop-append : (p s : Text) → drop (length p) (p ++ s) ≡ s
drop-append [] s = refl
drop-append (c ∷ p) s = drop-append p s

-- the keys of the flags, in Redis and in memory
abbrev pub in_redis : Text → List Text → List Text
in_redis redis_prefix keys = map (λ key. flags_at redis_prefix ++ key) keys

abbrev pub join : List (List Text) → List Text
join [] = []
join (keys ∷ pages) = keys ++ join pages

remove_first-append : (c : ℕ) (p key : Text) → remove_first (c ∷ p) (c ∷ p ++ key) ≡ key
unfolding remove_first
remove_first-append c p key =
    ground (arith, starts_with-append (c ∷ p) key, drop-append (c ∷ p) key)

remove_first-flags_at :
    (redis_prefix key : Text)
    → remove_first (flags_at redis_prefix) (flags_at redis_prefix ++ key) ≡ key
remove_first-flags_at [] key = remove_first-append 102 (txt "lags:") key
remove_first-flags_at (c ∷ cs) key =
    ap (λ t. remove_first (flags_at (c ∷ cs)) t) refl ∙ remove_first-append c (flags_at cs) key

module _ (redis_prefix : Text) where
  module _ (limit : ℕ) (p q : Text) where
    visit_all-list_from :
        (keys : List Text) (s : Listing)
        → visit_all redis_prefix limit p q (in_redis redis_prefix keys) s
          ≡ list_from limit p q keys s
    unfolding visit_all list_from listed
    visit_all-list_from [] s = refl
    visit_all-list_from (key ∷ keys) s =
        let relative = relative_key p key in
        let counts = counted (group_name relative) (matches_search q key) s.counts in
        let s' : Listing = record s { counts = counts } in
        ground (
          arith,
          remove_first-flags_at redis_prefix key,
          visit_all-list_from keys s,
          visit_all-list_from keys s',
          visit_all-list_from keys (listed relative s'),
        )

    list_from-append :
        (xs ys : List Text) (s : Listing)
        → list_from limit p q (xs ++ ys) s ≡ (
            if (list_from limit p q xs s).1
            then list_from limit p q xs s
            else list_from limit p q ys (list_from limit p q xs s).0)
    unfolding list_from
    list_from-append [] ys s = refl
    list_from-append (key ∷ xs) ys s =
        let relative = relative_key p key in
        let counts = counted (group_name relative) (matches_search q key) s.counts in
        let s' : Listing = record s { counts = counts } in
        ground (
          arith,
          list_from-append xs ys s,
          list_from-append xs ys s',
          list_from-append xs ys (listed relative s'),
        )

    over_pages-list_from :
        (scan : ℕ → Text → Text × List Text) (call : ℕ) (pages : List (List Text)) (s : Listing)
        → over_pages scan
            (list_page redis_prefix limit p q)
            call
            (map (in_redis redis_prefix) pages)
            (s, false)
          ≡ list_from limit p q (join pages) s
    unfolding list_page
    over_pages-list_from scan call [] s = unfold list_from in refl
    over_pages-list_from scan call (keys ∷ pages) s = ground (
      arith,
      visit_all-list_from keys s,
      list_from-append keys (join pages) s,
      over_pages-list_from scan (suc call) pages (list_from limit p q keys s).0,
    )

  -- Where SCAN comes to an end, with the keys of the flags in its pages, and the fuel is at least the
  -- number of pages, the listing in Redis ends with what the memory's listing answers on the keys of
  -- all pages.
  pub list_flags-Service :
      (limit : ℕ) (prefix : Text) (query : Option Text) (scan : ℕ → Text → Text × List Text)
      (fuel : ℕ) (pages : List (List Text))
      → Iteration scan 0 (txt "0") (map (in_redis redis_prefix) pages)
      → length pages ≤ fuel
      → list_flags redis_prefix limit prefix query scan fuel
        ≡ some (Service.list_flags limit prefix (or_else query []) (join pages))
  unfolding list_flags Service.list_flags
  list_flags-Service limit prefix query scan fuel pages it le =
      let p = normalize_prefix prefix in
      let q = to_lower_case (or_else query []) in
      let body = list_page redis_prefix limit p q in
      let start : Listing × Bool = (record { counts = []; groups = []; flags = [] }, false) in
      let ended =
        do_scan-over_pages scan body fuel 0 (txt "0") (map (in_redis redis_prefix) pages) start it
          (omega (arith, length-map (in_redis redis_prefix) pages)) in
      ap (λ (o : Option (Listing × Bool)). elim o [ none ↦ none | some x ↦ some (dto_of x.0 x.1) ])
        (ended ∙ ap some (over_pages-list_from limit p q scan 0 pages start.0))
