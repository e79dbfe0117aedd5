-- ===== src/Control/Operations/Running.antt =====
-- When mocko-control/lib/management/operation.service.ts starts to execute an operation.
use mocko.Base.{
  ℕ, Text, ◌≡◌, refl, Bool, true, false, ◌&&◌, Option, none, some, List, [], ◌∷◌, arith, map, find,
  ◌==◌, text_eq, if◌then◌else◌, Option-cases, inl, inr, Elem, find-Elem, find_sound,
}
use mocko.Base.Result.{ok}
use mocko.Control.Operations.{
  OperationData, stale_flags, matching_flags, v1_migration, v1_purge, migration_prefix,
  is_done_migration, Operation, OperationStatus, executing, execute, Management, StoreConfig,
  has_operation_id, get_operation, with_status, update_operation, is_ready, is_migration, is_done,
  transition_to_executing, v1_purge_input, create_operation, find_latest_done_migration,
}

find-updated :
    (id : Text) (status : OperationStatus) (at : Option ℕ) (operations : List Operation)
    → find (has_operation_id id) (
        map {A = Operation}
          (λ operation. if operation.id == id then with_status status at operation else operation)
          operations)
      ≡ (elim (find (has_operation_id id) operations) [
        | none ↦ none
        | some operation ↦ some (with_status status at operation)
      ])
find-updated id status at [] = refl
find-updated id status at (x ∷ xs) = ground (arith, find-updated id status at xs)

pub get-update_operation :
    (id : Text) (status : OperationStatus) (at : Option ℕ) (s : Management)
    → get_operation id (update_operation id status at s) ≡ (elim (get_operation id s) [
      | none ↦ none
      | some operation ↦ some (with_status status at operation)
    ])
unfolding get_operation update_operation
get-update_operation id status at s = find-updated id status at s.operations

abbrev pub source_prefix_of : OperationData → Option Text
source_prefix_of (v1_purge source_prefix at) = some source_prefix
source_prefix_of (v1_migration source_prefix) = none
source_prefix_of (stale_flags threshold) = none
source_prefix_of (matching_flags mode pattern) = none

module _ (config : StoreConfig) where
  -- transitionToExecuting succeeds on an operation that is READY, and on a migration only where the
  -- workspace has no own mocks: its status is then EXECUTING, and its execution has started.
  pub transition_to_executing-ok :
      (id : Text) (has_own_mocks : Bool) (s : Management) (answer : Operation)
      → (transition_to_executing config id has_own_mocks s).0 ≡ ok answer
      → (operation : Operation) × (get_operation id s ≡ some operation)
        × (is_ready operation.status ≡ true)
        × ((is_migration operation.type_data && has_own_mocks) ≡ false)
        × (answer ≡ with_status executing none operation)
        × (get_operation id (transition_to_executing config id has_own_mocks s).1 ≡ some answer)
        × ((transition_to_executing config id has_own_mocks s).1.jobs ≡ execute operation ∷ s.jobs)
  unfolding transition_to_executing update_operation
  transition_to_executing-ok id has_own_mocks s answer e =
      elim (Option-cases (get_operation id s)) [
        | inl n ↦ ground arith
        | inr (operation, there) ↦ (
          operation,
          there,
          ground arith,
          ground arith,
          ground arith,
          ground (arith, get-update_operation id executing none s),
          ground arith,
        )
      ]

  -- A V1_PURGE that createOperation accepts names the source prefix of a V1_MIGRATION of the store
  -- that is DONE.
  pub create_operation-purge :
      (id : Text) (now : ℕ) (s : Management) (answer : Operation)
      → (create_operation config id now v1_purge_input s).0 ≡ ok answer
      → (migration : Operation) × Elem migration s.operations
        × (is_migration migration.type_data ≡ true)
        × (is_done migration.status ≡ true)
        × (source_prefix_of answer.type_data ≡ migration_prefix migration.type_data)
  unfolding create_operation find_latest_done_migration
  create_operation-purge id now s answer e = elim (Option-cases (find_latest_done_migration s)) [
    | inl n ↦ ground arith
    | inr (migration, there) ↦ (
      migration,
      find-Elem is_done_migration s.operations migration there,
      ground (arith, find_sound is_done_migration s.operations migration there),
      ground (arith, find_sound is_done_migration s.operations migration there),
      ground (arith, find_sound is_done_migration s.operations migration there),
    )
  ]
