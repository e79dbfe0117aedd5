-- ===== src/Control/Operations.antt =====
-- mocko-control/lib/management/operation.service.ts, over the operations that the Redis store keeps.
-- `id`, `now` and the answer of hasOwnMocks are arguments; times are milliseconds. The counts that an
-- operation reports of its progress are left out.
pub mod Running
pub mod Jobs
pub mod Orderly
pub mod Moves
pub mod Forward
pub mod Overlap
use mocko.Base.{
  ℕ, Text, txt, Bool, true, false, not, ◌&&◌, Option, none, some, List, [], ◌∷◌, ◌++◌, map, find,
  filter, ends_with, leb, ltb, ◌==◌, text_eq, if◌then◌else◌, insert_sorted,
}
use mocko.Base.Result.{Result, ok, err, ◌>>=◌, ◌>>◌}

pub data OperationStatus : Type 0 where
  scanning ready executing done failed : OperationStatus

pub data MatchingFlagsMode : Type 0 where
  prefix_mode contains_mode regex_mode : MatchingFlagsMode

pub data OperationData : Type 0 where
  stale_flags : (threshold_seconds : ℕ) → OperationData
  matching_flags : MatchingFlagsMode → (pattern : Text) → OperationData
  v1_migration : (source_prefix : Text) → OperationData
  v1_purge : (source_prefix : Text) → (migration_completed_at : Option ℕ) → OperationData

pub record Operation : Type 0 where
  pub id : Text
  pub type_data : OperationData
  pub status : OperationStatus
  pub created_at : ℕ
  pub completed_at : Option ℕ

pub data CreateOperationInput : Type 0 where
  stale_flags_input : ℕ → CreateOperationInput
  matching_flags_input : MatchingFlagsMode → Text → CreateOperationInput
  v1_migration_input : Text → CreateOperationInput
  v1_purge_input : CreateOperationInput

pub data OperationError : Type 0 where
  unprocessable_entity bad_request operation_not_found : OperationError

-- A background call of the store: the scan of a new operation, or its execution.
pub data Job : Type 0 where
  scan : Operation → Job
  execute : Operation → Job

-- The store's operations, newest first, and the background calls made, latest first.
pub record Management : Type 0 where
  pub operations : List Operation
  pub jobs : List Job

pub record StoreConfig : Type 0 where
  pub is_management_supported : Bool
  pub v1_migration_enabled : Bool
  pub redis_prefix : Text

abbrev pub has_operation_id : Text → Operation → Bool
has_operation_id id operation = operation.id == id

-- createOperation of the store: an index by creation time, read from the latest to the first
unfoldable pub store_operation : Operation → Management → Management
store_operation operation s = record s {
  operations = insert_sorted (λ a b. leb b.created_at a.created_at) operation s.operations;
}

unfoldable pub get_operation : Text → Management → Option Operation
get_operation id s = find (has_operation_id id) s.operations

abbrev pub with_status : OperationStatus → Option ℕ → Operation → Operation
with_status status completed_at operation = record operation {
  status = status;
  completed_at = elim completed_at [ none ↦ operation.completed_at | some t ↦ some t ];
}

-- updateOperation of the store, on the status and the time of completion
unfoldable pub update_operation : Text → OperationStatus → Option ℕ → Management → Management
update_operation id status completed_at s = record s {
  operations =
      map {A = Operation}
        (λ operation.
          if operation.id == id then with_status status completed_at operation else operation)
        s.operations;
}

abbrev pub run_background : Job → Management → Management
run_background job s = record s { jobs = job ∷ s.jobs }

-- the `catch` of runBackground
unfoldable pub background_failed : Text → ℕ → Management → Management
unfolding update_operation
background_failed operation_id now s = update_operation operation_id failed (some now) s

unfoldable pub normalize_source_prefix : Text → Text
normalize_source_prefix prefix = if ends_with prefix (txt ":") then prefix else prefix ++ txt ":"

abbrev pub is_done : OperationStatus → Bool
is_done done = true
is_done scanning = false
is_done ready = false
is_done executing = false
is_done failed = false

abbrev pub is_ready : OperationStatus → Bool
is_ready ready = true
is_ready scanning = false
is_ready executing = false
is_ready done = false
is_ready failed = false

abbrev pub migration_prefix : OperationData → Option Text
migration_prefix (v1_migration source_prefix) = some source_prefix
migration_prefix (stale_flags threshold) = none
migration_prefix (matching_flags mode pattern) = none
migration_prefix (v1_purge source_prefix at) = none

abbrev pub is_migration : OperationData → Bool
is_migration d = elim (migration_prefix d) [ none ↦ false | some source_prefix ↦ true ]

abbrev pub is_done_migration : Operation → Bool
is_done_migration operation = is_migration operation.type_data && is_done operation.status

unfoldable pub find_latest_done_migration : Management → Option Operation
find_latest_done_migration s = find is_done_migration s.operations

abbrev new_operation : Text → ℕ → OperationData → Operation
new_operation id now type_data = record {
  id = id;
  type_data = type_data;
  status = scanning;
  created_at = now;
  completed_at = none;
}

-- one case of createOperation: the operation is stored, and its scan starts in the background
abbrev pub started : Operation → Management → Result OperationError Operation × Management
started operation s = (ok operation, run_background (scan operation) (store_operation operation s))

abbrev purge_input : Operation → OperationData
purge_input migration =
    v1_purge
      (elim (migration_prefix migration.type_data) [
        | none ↦ []
        | some source_prefix ↦ source_prefix
      ])
      migration.completed_at

module _ (config : StoreConfig) where
  unfoldable pub create_operation :
      Text → ℕ → CreateOperationInput → Management → Result OperationError Operation × Management
  unfolding store_operation normalize_source_prefix find_latest_done_migration
  create_operation id now (stale_flags_input threshold) s =
      if config.is_management_supported
      then started (new_operation id now (stale_flags threshold)) s
      else (err unprocessable_entity, s)
  create_operation id now (matching_flags_input mode pattern) s =
      if config.is_management_supported
      then started (new_operation id now (matching_flags mode pattern)) s
      else (err unprocessable_entity, s)
  create_operation id now (v1_migration_input source_prefix) s =
      if config.is_management_supported && config.v1_migration_enabled
      then started (new_operation id now (v1_migration (normalize_source_prefix source_prefix))) s
      else (err unprocessable_entity, s)
  create_operation id now v1_purge_input s =
      if config.is_management_supported && config.v1_migration_enabled
      then elim (find_latest_done_migration s) [
        | none ↦ (err bad_request, s)
        | some migration ↦ started (new_operation id now (purge_input migration)) s
      ]
      else (err unprocessable_entity, s)

  unfoldable pub transition_to_executing :
      Text → (has_own_mocks : Bool) → Management → Result OperationError Operation × Management
  unfolding get_operation update_operation
  transition_to_executing id has_own_mocks s =
      if config.is_management_supported
      then elim (get_operation id s) [
        | none ↦ (err operation_not_found, s)
        | some operation ↦
            if not (is_ready operation.status)
            then (err bad_request, s)
            else if is_migration operation.type_data && has_own_mocks
            then (err bad_request, s)
            else (
              ok (with_status executing none operation),
              run_background (execute operation) (update_operation id executing none s),
            )
      ]
      else (err unprocessable_entity, s)

  unfoldable pub delete_operation :
      Text → Management → Result OperationError (Unit {0}) × Management
  delete_operation id s =
      if config.is_management_supported
      then (
        ok tt,
        record s { operations = filter (λ operation. not (operation.id == id)) s.operations },
      )
      else (err unprocessable_entity, s)
