-- ===== src/Control/Operations/Overlap.antt =====
-- transitionToExecuting of mocko-control/lib/management/operation.service.ts, cut where it awaits the
-- store: what it reads and checks, and what it writes and starts.
use mocko.Base.{
  Text, ◌≡◌, refl, Bool, not, ◌&&◌, none, some, ◌∷◌, arith, text_eq, if◌then◌else◌, Option-cases,
  inl, inr,
}
use mocko.Base.Result.{Result, ok, err}
use mocko.Control.Operations.{
  Operation, OperationError, unprocessable_entity, operation_not_found, bad_request, executing,
  is_ready, is_migration, execute, Management, StoreConfig, get_operation, update_operation,
  run_background, transition_to_executing,
}
use mocko.Control.Operations.Running.{get-update_operation}

module _ (config : StoreConfig) where
  unfoldable pub check_executing :
      Text → (has_own_mocks : Bool) → Management → Result OperationError Operation
  unfolding get_operation
  check_executing id has_own_mocks s =
      if config.is_management_supported
      then elim (get_operation id s) [
        | none ↦ err operation_not_found
        | some operation ↦
            if not (is_ready operation.status)
            then err bad_request
            else if is_migration operation.type_data && has_own_mocks
            then err bad_request
            else ok operation
      ]
      else err unprocessable_entity

  unfoldable pub commit_executing : Text → Operation → Management → Management
  unfolding update_operation
  commit_executing id operation s =
      run_background (execute operation) (update_operation id executing none s)

  -- For two requests to execute one operation whose check passes: in sequence, the first is
  -- transitionToExecuting as a whole, and the second is refused as the operation is no longer READY; but
  -- if both have read it before either has written, both start an execution of it.
  pub overlap-Twice :
      (id : Text) (has_own_mocks : Bool) (operation : Operation) (s : Management)
      → check_executing id has_own_mocks s ≡ ok operation
      → ((transition_to_executing config id has_own_mocks s).1 ≡ commit_executing id operation s)
        × ((check_executing id has_own_mocks (commit_executing id operation s) ≡ err bad_request)
            × ((commit_executing id operation (commit_executing id operation s)).jobs
                ≡ execute operation ∷ execute operation ∷ s.jobs))
  unfolding check_executing commit_executing transition_to_executing update_operation
  overlap-Twice id has_own_mocks operation s h = elim (Option-cases (get_operation id s)) [
    | inl n ↦ absurd (ground arith)
    | inr (found, there) ↦
        let written = get-update_operation id executing none s in
        (ground arith, (ground arith, refl))
  ]
