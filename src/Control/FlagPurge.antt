-- ===== src/Control/FlagPurge.antt =====
-- The scans for flags to purge and the purge itself, of mocko-control/lib/store/redis-store.ts: the list
-- of the keys found, beside the hash of the operation. The keys of Redis, its lists, and OBJECT IDLETIME
-- are arguments; an error reply is left out.
pub mod Batches
pub mod Exact
pub mod Selected
use mocko.Base.{
  ℕ, zero, suc, ◌+◌, Text, txt, Bool, true, false, Option, none, some, List, [], ◌∷◌, ◌++◌, map,
  filter, length, take, drop, ltb, starts_with, includes, is_empty, if◌then◌else◌,
}
use mocko.Redis.{Keyspace, ListKey}
use mocko.Control.Operations.{
  OperationStatus, ready, done, MatchingFlagsMode, prefix_mode, contains_mode, regex_mode,
}
use mocko.Control.Scan.{do_scan}
use mocko.Control.FlagList.{flags_at}

-- The fields that these jobs write in the hash of an operation; `found_count` is `staleFlags` or
-- `matchedCount`.
pub record OperationHash : Type 0 where
  pub status : OperationStatus
  pub completed_at : Option ℕ
  pub scanned_count : Option ℕ
  pub found_count : Option ℕ
  pub purged_count : Option ℕ

-- OPERATIONS_BATCH_SIZE
abbrev pub batch_size : ℕ
batch_size = 1000

-- `key.slice(prefix.length)` of a key that starts with the prefix
unfoldable pub to_relative_key : Text → Text → Option Text
to_relative_key prefix key =
    if starts_with key prefix then some (drop (length prefix) key) else none

-- `createFlagMatcher`, over the test of a regular expression
unfoldable pub create_flag_matcher :
    (regex_test : Text → Text → Bool) → MatchingFlagsMode → Text → Text → Bool
create_flag_matcher regex_test prefix_mode pattern key = starts_with key pattern
create_flag_matcher regex_test contains_mode pattern key = includes key pattern
create_flag_matcher regex_test regex_mode pattern key = regex_test pattern key

unfoldable pub is_matching_flag_key : Text → (Text → Bool) → Text → Bool
unfolding to_relative_key
is_matching_flag_key redis_prefix matches key = elim (to_relative_key (flags_at redis_prefix) key) [
  | none ↦ false
  | some relative ↦ if is_empty relative then false else matches relative
]

unfoldable pub find_matching_flag_keys : Text → (Text → Bool) → List Text → List Text
unfolding is_matching_flag_key
find_matching_flag_keys redis_prefix matches keys =
    filter (is_matching_flag_key redis_prefix matches) keys

-- whether OBJECT IDLETIME answers with a number over the threshold
unfoldable pub is_stale : (idle_seconds : Text → Option ℕ) → ℕ → Text → Bool
is_stale idle_seconds threshold key = elim (idle_seconds key) [
  | none ↦ false
  | some idle ↦ ltb threshold idle
]

unfoldable pub find_stale_keys : (idle_seconds : Text → Option ℕ) → ℕ → List Text → List Text
unfolding is_stale
find_stale_keys idle_seconds threshold keys = filter (is_stale idle_seconds threshold) keys

-- `fullKeys.flatMap(...)`: a key outside the prefix, or the prefix itself, is left out
unfoldable pub to_relative_keys : Text → List Text → List Text
unfolding to_relative_key
to_relative_keys redis_prefix [] = []
to_relative_keys redis_prefix (key ∷ keys) =
    let rest = to_relative_keys redis_prefix keys in
    elim (to_relative_key redis_prefix key) [
      | none ↦ rest
      | some relative ↦ if is_empty relative then rest else relative ∷ rest
    ]

module _ (db : Keyspace) (l : ListKey) where
  pub record Work : Type 0 where
    pub keyspace : db.State
    pub flag_keys : l.State
    pub operation : OperationHash

  -- `appendMatchedKeys`: one RPUSH for each batch
  unfoldable pub append_matched_keys : (fuel : ℕ) → List Text → l.State → l.State
  append_matched_keys zero keys list = list
  append_matched_keys (suc fuel) [] list = list
  append_matched_keys (suc fuel) (key ∷ keys) list =
      append_matched_keys fuel (drop batch_size (key ∷ keys))
        (l.rpush (take batch_size (key ∷ keys)) list)

  -- The variables of a scan's loop, beside the store.
  pub record Scanning : Type 0 where
    pub work : Work
    pub scanned_count : ℕ
    pub found_count : ℕ

  -- One round of the loop. `elapsed` says whether PROGRESS_UPDATE_INTERVAL_MS have passed at a call.
  unfoldable pub scan_page :
      (List Text → List Text) → (elapsed : ℕ → Bool) → ℕ → List Text → Scanning → Bool × Scanning
  unfolding append_matched_keys
  scan_page find elapsed call [] s = (false, s)
  scan_page find elapsed call (key ∷ keys) s =
      let found = find (key ∷ keys) in
      let scanned = s.scanned_count + length (key ∷ keys) in
      let operation =
        if elapsed call
        then record s.work.operation { scanned_count = some scanned }
        else s.work.operation in
      (
        false,
        record {
          work = record s.work {
            flag_keys = append_matched_keys (length found) found s.work.flag_keys;
            operation = operation;
          };
          scanned_count = scanned;
          found_count = s.found_count + length found;
        },
      )

  -- The scan, to its last update; none when the fuel is out.
  unfoldable pub scan_for_management :
      (List Text → List Text)
      → (elapsed : ℕ → Bool) → (scan : ℕ → Text → Text × List Text) → (fuel : ℕ) → Work
      → Option Work
  unfolding scan_page
  scan_for_management find elapsed scan fuel w =
      let start : Scanning = record {
        work = record w { flag_keys = l.empty };
        scanned_count = 0;
        found_count = 0;
      } in
      elim (do_scan scan (scan_page find elapsed) fuel 0 (txt "0") start) [
        | none ↦ none
        | some s ↦ some (record s.work {
          operation = record s.work.operation {
            status = ready;
            scanned_count = some s.scanned_count;
            found_count = some s.found_count;
          };
        })
      ]

  -- `scanStaleFlagsForManagement`
  unfoldable pub scan_stale_flags :
      (idle_seconds : Text → Option ℕ)
      → (threshold : ℕ) → (elapsed : ℕ → Bool) → (scan : ℕ → Text → Text × List Text) → ℕ
      → Work
      → Option Work
  unfolding scan_for_management find_stale_keys
  scan_stale_flags idle_seconds threshold elapsed scan fuel w =
      scan_for_management (find_stale_keys idle_seconds threshold) elapsed scan fuel w

  -- `scanMatchingFlagsForManagement`
  unfoldable pub scan_matching_flags :
      Text
      → (matches : Text → Bool) → (elapsed : ℕ → Bool) → (scan : ℕ → Text → Text × List Text) → ℕ
      → Work
      → Option Work
  unfolding scan_for_management find_matching_flag_keys
  scan_matching_flags redis_prefix matches elapsed scan fuel w =
      scan_for_management (find_matching_flag_keys redis_prefix matches) elapsed scan fuel w

  -- `redis.del(...keys)` of a client that puts its prefix before each key
  unfoldable pub del_relative : Text → List Text → db.State → ℕ × db.State
  del_relative redis_prefix keys s =
      if is_empty keys then (0, s) else db.del (map (λ key. redis_prefix ++ key) keys) s

  -- The loop of `purgeStaleFlagsForManagement`; none when the fuel is out.
  unfoldable pub purge_batches : Text → (fuel purged_count : ℕ) → Work → Option (ℕ × Work)
  unfolding to_relative_keys del_relative
  purge_batches redis_prefix zero purged_count w = none
  purge_batches redis_prefix (suc fuel) purged_count w =
      let (full_keys, left) = l.lpop batch_size w.flag_keys in
      let (deleted, rest) =
        del_relative redis_prefix (to_relative_keys redis_prefix full_keys) w.keyspace in
      let more =
        purge_batches redis_prefix fuel (purged_count + deleted)
          (record w { keyspace = rest; flag_keys = left }) in
      if is_empty full_keys then some (purged_count, record w { flag_keys = left }) else more

  -- `purgeStaleFlagsForManagement`
  unfoldable pub purge_flags : Text → (now fuel : ℕ) → Work → Option Work
  unfolding purge_batches
  purge_flags redis_prefix now fuel w = elim (purge_batches redis_prefix fuel 0 w) [
    | none ↦ none
    | some (purged_count, w') ↦ some (record w' {
      flag_keys = l.empty;
      operation = record w'.operation {
        status = done;
        completed_at = some now;
        purged_count = some purged_count;
      };
    })
  ]
