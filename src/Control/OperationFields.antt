-- ===== src/Control/OperationFields.antt =====
-- The hash of an operation in mocko-control/lib/store/redis-store.ts: what `serializeOperation` writes
-- and `deserializeOperation` reads, on the types of mocko-control/lib/types/operation.ts. A status and a
-- mode are the texts that the code passes on unchecked; a text that is missing is read as empty.
-- `String` and `Number` on counts are arguments.
pub mod RoundTrip
use mocko.Base.{
  ℕ, ◌≡◌, Text, txt, Bool, Option, none, some, List, [], ◌∷◌, ◌++◌, map, is_empty, or_else, ◌==◌,
  text_eq, if◌then◌else◌,
}
use mocko.Base.Dict
use mocko.Base.Dict.{Dict}

pub record StaleFlagsData : Type 0 where
  pub threshold_seconds : ℕ
  pub scanned_count : Option ℕ
  pub stale_flags : Option ℕ
  pub purged_count : Option ℕ

pub record MatchingFlagsData : Type 0 where
  pub mode : Text
  pub pattern : Text
  pub scanned_count : Option ℕ
  pub matched_count : Option ℕ
  pub purged_count : Option ℕ

pub record V1MigrationData : Type 0 where
  pub source_prefix : Text
  pub mocks_found : Option ℕ
  pub flags_found : Option ℕ
  pub mocks_migrated : Option ℕ
  pub flags_migrated : Option ℕ
  pub flags_skipped : Option ℕ

pub record V1PurgeData : Type 0 where
  pub source_prefix : Text
  pub migration_completed_at : Option Text
  pub keys_found : Option ℕ
  pub purged_count : Option ℕ

pub data TypedData : Type 0 where
  stale_flags_data : StaleFlagsData → TypedData
  matching_flags_data : MatchingFlagsData → TypedData
  v1_migration_data : V1MigrationData → TypedData
  v1_purge_data : V1PurgeData → TypedData

pub record StoredOperation : Type 0 where
  pub id : Text
  pub status : Text
  pub created_at : Text
  pub completed_at : Option Text
  pub typed : TypedData

-- `value || undefined`
abbrev pub truthy : Option Text → Option Text
truthy none = none
truthy (some text) = if is_empty text then none else some text

-- the entries of an object whose value is not undefined
unfoldable pub defined : List (Text × Option Text) → Dict Text Text
defined [] = []
defined ((key, none) ∷ entries) = defined entries
defined ((key, some value) ∷ entries) = (key, value) ∷ defined entries

module _ (string : ℕ → Text) (number : Text → ℕ) where
  abbrev pub string_of : Option ℕ → Option Text
  string_of none = none
  string_of (some n) = some (string n)

  -- `parseOptionalNumber`
  abbrev pub parse_optional_number : Option Text → Option ℕ
  parse_optional_number none = none
  parse_optional_number (some text) = some (number text)

  -- `parseNumber`
  abbrev pub parse_number : Option Text → ℕ
  parse_number none = 0
  parse_number (some text) = number text

  abbrev pub type_of : TypedData → Text
  type_of (stale_flags_data d) = txt "STALE_FLAGS"
  type_of (matching_flags_data d) = txt "MATCHING_FLAGS"
  type_of (v1_migration_data d) = txt "V1_MIGRATION"
  type_of (v1_purge_data d) = txt "V1_PURGE"

  -- `serializeOperationData`, each key behind its field
  abbrev pub data_entries : TypedData → List (Text × Option Text)
  data_entries (stale_flags_data d) =
      (txt "staleFlagsData.thresholdSeconds", some (string d.threshold_seconds))
      ∷ (txt "staleFlagsData.scannedCount", string_of d.scanned_count)
      ∷ (txt "staleFlagsData.staleFlags", string_of d.stale_flags)
      ∷ (txt "staleFlagsData.purgedCount", string_of d.purged_count)
      ∷ []
  data_entries (matching_flags_data d) =
      (txt "matchingFlagsData.mode", some d.mode)
      ∷ (txt "matchingFlagsData.pattern", some d.pattern)
      ∷ (txt "matchingFlagsData.scannedCount", string_of d.scanned_count)
      ∷ (txt "matchingFlagsData.matchedCount", string_of d.matched_count)
      ∷ (txt "matchingFlagsData.purgedCount", string_of d.purged_count)
      ∷ []
  data_entries (v1_migration_data d) =
      (txt "v1MigrationData.sourcePrefix", some d.source_prefix)
      ∷ (txt "v1MigrationData.mocksFound", string_of d.mocks_found)
      ∷ (txt "v1MigrationData.flagsFound", string_of d.flags_found)
      ∷ (txt "v1MigrationData.mocksMigrated", string_of d.mocks_migrated)
      ∷ (txt "v1MigrationData.flagsMigrated", string_of d.flags_migrated)
      ∷ (txt "v1MigrationData.flagsSkipped", string_of d.flags_skipped)
      ∷ []
  data_entries (v1_purge_data d) =
      (txt "v1PurgeData.sourcePrefix", some d.source_prefix)
      ∷ (txt "v1PurgeData.migrationCompletedAt", d.migration_completed_at)
      ∷ (txt "v1PurgeData.keysFound", string_of d.keys_found)
      ∷ (txt "v1PurgeData.purgedCount", string_of d.purged_count)
      ∷ []

  abbrev pub entries_of : StoredOperation → List (Text × Option Text)
  entries_of op =
      (txt "id", some op.id)
      ∷ (txt "type", some (type_of op.typed))
      ∷ (txt "status", some op.status)
      ∷ (txt "createdAt", some op.created_at)
      ∷ (txt "completedAt", truthy op.completed_at)
      ∷ data_entries op.typed

  unfoldable pub serialize_operation : StoredOperation → Dict Text Text
  unfolding defined
  serialize_operation op = defined (entries_of op)

  -- the data that a payload of a type holds
  abbrev pub typed_of : (Text → Option Text) → (type : Text) → Option TypedData
  typed_of payload type =
      if type == txt "STALE_FLAGS"
      then some (
          stale_flags_data (record {
            threshold_seconds = parse_number (payload (txt "staleFlagsData.thresholdSeconds"));
            scanned_count = parse_optional_number (payload (txt "staleFlagsData.scannedCount"));
            stale_flags = parse_optional_number (payload (txt "staleFlagsData.staleFlags"));
            purged_count = parse_optional_number (payload (txt "staleFlagsData.purgedCount"));
          }))
      else if type == txt "MATCHING_FLAGS"
      then some (
          matching_flags_data (record {
            mode = or_else (payload (txt "matchingFlagsData.mode")) [];
            pattern = or_else (payload (txt "matchingFlagsData.pattern")) [];
            scanned_count = parse_optional_number (payload (txt "matchingFlagsData.scannedCount"));
            matched_count = parse_optional_number (payload (txt "matchingFlagsData.matchedCount"));
            purged_count = parse_optional_number (payload (txt "matchingFlagsData.purgedCount"));
          }))
      else if type == txt "V1_MIGRATION"
      then some (
          v1_migration_data (record {
            source_prefix = or_else (payload (txt "v1MigrationData.sourcePrefix")) [];
            mocks_found = parse_optional_number (payload (txt "v1MigrationData.mocksFound"));
            flags_found = parse_optional_number (payload (txt "v1MigrationData.flagsFound"));
            mocks_migrated = parse_optional_number (payload (txt "v1MigrationData.mocksMigrated"));
            flags_migrated = parse_optional_number (payload (txt "v1MigrationData.flagsMigrated"));
            flags_skipped = parse_optional_number (payload (txt "v1MigrationData.flagsSkipped"));
          }))
      else if type == txt "V1_PURGE"
      then some (
          v1_purge_data (record {
            source_prefix = or_else (payload (txt "v1PurgeData.sourcePrefix")) [];
            migration_completed_at = truthy (payload (txt "v1PurgeData.migrationCompletedAt"));
            keys_found = parse_optional_number (payload (txt "v1PurgeData.keysFound"));
            purged_count = parse_optional_number (payload (txt "v1PurgeData.purgedCount"));
          }))
      else none

  abbrev pub operation_of : (Text → Option Text) → Option StoredOperation
  operation_of payload = elim (typed_of payload (or_else (payload (txt "type")) [])) [
    | none ↦ none
    | some typed ↦ some (record {
      id = or_else (payload (txt "id")) [];
      status = or_else (payload (txt "status")) [];
      created_at = or_else (payload (txt "createdAt")) [];
      completed_at = truthy (payload (txt "completedAt"));
      typed = typed;
    })
  ]

  unfoldable pub deserialize_operation : Dict Text Text → Option StoredOperation
  deserialize_operation payload =
      if is_empty payload then none else operation_of (λ key. Dict.get key payload)
