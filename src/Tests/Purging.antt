-- ===== src/Tests/Purging.antt =====
-- The theorems on the flags that the control panel reads and purges in Redis, at a database whose SCAN
-- gives two pages.
use mocko.Base.{
  ℕ, zero, suc, ◌≡◌, refl, inl, inr, Text, txt, Bool, true, false, Option, none, some, List, [],
  ◌∷◌, map, arith, Elem, All, subst, if◌then◌else◌, ◌==◌, starts_with, text_eq, nat_eq,
}
use native.Mathlib.Decide.{ℕ_discrete}
use mocko.Control.FlagMigration.{Migrating, migrate_flags}
use mocko.Control.FlagMigration.Migrated.{Completes, Throws, migrate_flags_lem}
use mocko.Base.{◌⊎◌}
use mocko.Base.Result.{Result, ok}
use mocko.Redis.Reference.{flag_dict, keyspace, list_key}
use mocko.Flags.Service
use mocko.Control.Operations.{scanning}
use mocko.Control.Scan.{Iteration, last, more}
use mocko.Control.FlagList.{flags_at, list_flags}
use mocko.Control.FlagList.Agreement.{in_redis, join, list_flags-Service}
use mocko.Control.FlagPurge.{Work, is_matching_flag_key, scan_matching_flags}
use mocko.Control.FlagPurge.Exact.{IsFlagKey}
use mocko.Control.FlagPurge.Selected.{Elem-of_contains, Purged, scan_matching_flags-Purged}

abbrev pages : List (List Text)
pages = (txt "a" ∷ txt "b:c" ∷ []) ∷ (txt "b:d" ∷ []) ∷ []

abbrev redis_pages : List (List Text)
redis_pages = map (in_redis (txt "m:")) pages

abbrev two_pages : ℕ → Text → Text × List Text
two_pages zero cursor = (txt "7", in_redis (txt "m:") (txt "a" ∷ txt "b:c" ∷ []))
two_pages (suc call) cursor = (txt "0", in_redis (txt "m:") (txt "b:d" ∷ []))

seven : txt "7" ≡ txt "0" → ⊥
seven e = ground arith

two_pages-Iteration : Iteration two_pages 0 (txt "0") redis_pages
two_pages-Iteration = more refl seven (last refl)

list_flags-Service_example :
    list_flags (txt "m:") 10 (txt "b") (some (txt "C")) two_pages 2
    ≡ some (Service.list_flags 10 (txt "b") (txt "C") (join pages))
list_flags-Service_example =
    list_flags-Service (txt "m:") 10 (txt "b") (some (txt "C")) two_pages 2 pages
      two_pages-Iteration (omega arith)

abbrev database : Work keyspace list_key
database = record {
  keyspace = txt "m:hosts" ∷ join redis_pages;
  flag_keys = [];
  operation = record {
    status = scanning;
    completed_at = none;
    scanned_count = none;
    found_count = none;
    purged_count = none;
  };
}

complete :
    (k : Text)
    → keyspace.exists k database.keyspace ≡ true
    → IsFlagKey (txt "m:") k
    → Elem k (join redis_pages)
unfolding starts_with
complete k there is_flag = elim (Elem-of_contains (txt "m:hosts" ∷ join redis_pages) k there) [
  | inl host ↦
      let odd : starts_with (txt "m:hosts") (flags_at (txt "m:")) ≡ true =
        subst (IsFlagKey (txt "m:")) host is_flag in
      absurd (ground arith)
  | inr there ↦ there
]

redis_pages-IsFlagKey : All (IsFlagKey (txt "m:")) (join redis_pages)
unfolding starts_with nat_eq ℕ_discrete
redis_pages-IsFlagKey = (refl, (refl, (refl, tt)))

never : ℕ → Bool
never call = false

-- the flags below the group `b`
abbrev in_b : Text → Bool
in_b key = starts_with key (txt "b:")

scan_matching_flags-Purged_example :
    Purged keyspace list_key
      (txt "m:")
      database
      9
      2
      (is_matching_flag_key (txt "m:") in_b)
      (scan_matching_flags keyspace list_key (txt "m:") in_b never two_pages 2 database)
scan_matching_flags-Purged_example =
    scan_matching_flags-Purged keyspace list_key (txt "m:") never two_pages 2 redis_pages database 9
      1 two_pages-Iteration (omega arith) (omega arith) redis_pages-IsFlagKey complete in_b

abbrev idle : Text → Option ℕ
idle key = if key == txt "m:flags:a" then some 90 else some 5

-- The flag `a` of the source is a string that lives for 50 ms more, and the others are not strings.
abbrev source_get : Text → Result ℕ (Option Text)
source_get key = ok (if key == txt "m:flags:a" then some (txt "1") else none)

abbrev source_pttl : Text → Result ℕ (Option ℕ)
source_pttl key = ok (some 50)

abbrev no_flags : flag_dict.State
unfolding flag_dict
no_flags = []

migrate_flags_lem_example :
    (t : Migrating flag_dict source_get source_pttl (txt "m:")) × (migrate_flags flag_dict
        source_get source_pttl
        (txt "m:")
        two_pages
        2
        no_flags
      ≡ some t)
    × (Completes flag_dict source_get source_pttl (txt "m:") (join pages) no_flags t
        ⊎ Throws flag_dict source_get source_pttl (txt "m:") (join pages) no_flags t)
migrate_flags_lem_example =
    migrate_flags_lem flag_dict source_get source_pttl (txt "m:") two_pages 2 pages no_flags
      two_pages-Iteration (omega arith)
