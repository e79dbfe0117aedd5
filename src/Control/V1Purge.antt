-- ===== src/Control/V1Purge.antt =====
-- The purge of a V1 database, of mocko-control/lib/store/redis-store.ts, and the count of its keys before
-- it. DEL and EXISTS of the source are an argument, and SCAN with the pattern of each prefix; the updates
-- of the progress are left out.
pub mod Deleted
use mocko.Base.{
  ℕ, zero, suc, ◌+◌, Text, txt, Bool, false, Option, none, some, List, [], ◌∷◌, ◌++◌, length, take,
  drop, if◌then◌else◌,
}
use mocko.Redis.{Keyspace}
use mocko.Control.Scan.{do_scan}
use mocko.Control.FlagPurge.{batch_size}

-- FLAG_PREFIX and FAILURE_PREFIX
abbrev pub purged_prefixes : List Text
purged_prefixes = txt "flags:" ∷ txt "mock_failure:" ∷ []

-- WORKSPACE_MOCKS_KEY and DEPLOYMENT_KEY, behind the prefix of the source
abbrev pub definition_keys : Text → List Text
definition_keys source_prefix =
    (source_prefix ++ txt "workspace_mocks") ∷ (source_prefix ++ txt "mocks_deployment") ∷ []

-- one round of `countSourceKeys`
abbrev pub count_page : ℕ → List Text → ℕ → Bool × ℕ
count_page call keys count = (false, count + length keys)

unfoldable pub count_source_keys : (scan : ℕ → Text → Text × List Text) → (fuel : ℕ) → Option ℕ
count_source_keys scan fuel = do_scan scan count_page fuel 0 (txt "0") 0

module _ (db : Keyspace) where
  -- `source.exists(...)`
  abbrev pub count_existing : List Text → db.State → ℕ
  count_existing [] s = 0
  count_existing (key ∷ keys) s =
      let rest = count_existing keys s in if db.exists key s then suc rest else rest

  -- the loop of `scanV1PurgeForManagement` over the prefixes
  unfoldable pub count_prefixes :
      (scan : Text → ℕ → Text → Text × List Text) → (fuel : ℕ) → List Text → ℕ → Option ℕ
  unfolding count_source_keys
  count_prefixes scan fuel [] keys_found = some keys_found
  count_prefixes scan fuel (prefix ∷ prefixes) keys_found =
      elim (count_source_keys (scan prefix) fuel) [
        | none ↦ none
        | some count ↦ count_prefixes scan fuel prefixes (keys_found + count)
      ]

  -- `scanV1PurgeForManagement`: the number of keys found
  unfoldable pub scan_v1_purge :
      (scan : Text → ℕ → Text → Text × List Text) → (fuel : ℕ) → Text → db.State → Option ℕ
  unfolding count_prefixes
  scan_v1_purge scan fuel source_prefix s =
      count_prefixes scan fuel purged_prefixes (count_existing (definition_keys source_prefix) s)

  -- the loop over a page's batches
  unfoldable pub delete_page : (fuel : ℕ) → List Text → ℕ × db.State → ℕ × db.State
  delete_page zero keys r = r
  delete_page (suc fuel) [] r = r
  delete_page (suc fuel) (key ∷ keys) (purged_count, s) =
      let (deleted, s') = db.del (take batch_size (key ∷ keys)) s in
      delete_page fuel (drop batch_size (key ∷ keys)) (purged_count + deleted, s')

  unfoldable pub purge_page : ℕ → List Text → ℕ × db.State → Bool × (ℕ × db.State)
  unfolding delete_page
  purge_page call keys r = (false, delete_page (length keys) keys r)

  -- the loop over the prefixes
  unfoldable pub purge_prefixes :
      (scan : Text → ℕ → Text → Text × List Text)
      → (fuel : ℕ) → List Text
      → ℕ × db.State
      → Option (ℕ × db.State)
  unfolding purge_page
  purge_prefixes scan fuel [] r = some r
  purge_prefixes scan fuel (prefix ∷ prefixes) r =
      elim (do_scan (scan prefix) purge_page fuel 0 (txt "0") r) [
        | none ↦ none
        | some r' ↦ purge_prefixes scan fuel prefixes r'
      ]

  -- `executeV1PurgeForManagement`: the number of keys purged and the source after it; none when the fuel
  -- is out
  unfoldable pub execute_v1_purge :
      (scan : Text → ℕ → Text → Text × List Text)
      → (fuel : ℕ) → Text
      → db.State
      → Option (ℕ × db.State)
  unfolding purge_prefixes
  execute_v1_purge scan fuel source_prefix s =
      purge_prefixes scan fuel purged_prefixes (db.del (definition_keys source_prefix) s)
