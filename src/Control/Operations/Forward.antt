-- ===== src/Control/Operations/Forward.antt =====
-- operation.service.ts over store/redis-store.ts: the status of an operation only moves forward, and at
-- most one background call is under way for it.
use mocko.Base.{
  ℕ, Text, ◌≡◌, sym, subst, Bool, not, none, some, [], arith, filter, ◌==◌, text_eq, inl, inr, Elem,
  Elem-filter, find-Elem, find_sound, Option-cases, Bool-cases,
}
use mocko.Base.Result.{ok}
use mocko.Control.Operations.{
  scanning, ready, executing, done, failed, Operation, scan, execute, CreateOperationInput,
  stale_flags_input, matching_flags_input, v1_migration_input, v1_purge_input,
  find_latest_done_migration, Management, StoreConfig, is_ready, update_operation,
  background_failed, create_operation, store_operation, run_background, transition_to_executing,
  delete_operation, get_operation, has_operation_id,
}
use mocko.Control.Operations.Jobs.{
  finish_scan, finish_execution, IsNew, Step, created, started, deleted, scanned, executed, broken,
  forgotten, restarted, Reach, here, next, ◌⟶◌, kept, found, finished, lost_scan, lost_execution,
}
use mocko.Control.Operations.Orderly.{is_ready-eq, IsOrderly, Forward}
use mocko.Control.Operations.Moves.{
  ended, begun-IsOrderly, added-IsOrderly, fewer, forgotten-IsOrderly,
}

module _ (config : StoreConfig) where
  deleted_within :
      (id : Text) (s : Management) (x : Operation)
      → Elem x (delete_operation config id s).1.operations
      → Elem x s.operations
  unfolding delete_operation
  deleted_within id s x m = elim (Bool-cases config.is_management_supported) [
    | inl on ↦
        let k : Elem x (filter (λ operation. not (operation.id == id)) s.operations) = rw on at m in
        ((Elem-filter (λ (operation : Operation). not (operation.id == id)) x s.operations).0 k).0
    | inr off ↦ rw off at m
  ]

  deleted_jobs : (id : Text) (s : Management) → (delete_operation config id s).1.jobs ≡ s.jobs
  unfolding delete_operation
  deleted_jobs id s = ground arith

  create_operation-ok :
      (id : Text) (now : ℕ) (input : CreateOperationInput) (s : Management) (answer : Operation)
      → (create_operation config id now input s).0 ≡ ok answer
      → (answer.id ≡ id)
        × ((answer.status ≡ scanning)
            × ((create_operation config id now input s).1
                ≡ run_background (scan answer) (store_operation answer s)))
  unfolding create_operation find_latest_done_migration
  create_operation-ok id now (stale_flags_input threshold) s answer h =
      (ground arith, (ground arith, ground arith))
  create_operation-ok id now (matching_flags_input mode pattern) s answer h =
      (ground arith, (ground arith, ground arith))
  create_operation-ok id now (v1_migration_input prefix) s answer h =
      (ground arith, (ground arith, ground arith))
  create_operation-ok id now v1_purge_input s answer h =
      elim (Option-cases (find_latest_done_migration s)) [
        | inl n ↦ absurd (ground arith)
        | inr (migration, e) ↦ (ground arith, (ground arith, ground arith))
      ]

  transition-ok :
      (id : Text) (own : Bool) (s : Management) (answer : Operation)
      → (transition_to_executing config id own s).0 ≡ ok answer
      → (operation : Operation) × ((Elem operation s.operations)
          × ((operation.status ≡ ready)
              × ((transition_to_executing config id own s).1
                  ≡ run_background
                      (execute operation)
                      (update_operation operation.id executing none s))))
  unfolding transition_to_executing get_operation
  transition-ok id own s answer h = elim (Option-cases (get_operation id s)) [
    | inl n ↦ absurd (ground arith)
    | inr (operation, there) ↦
        let same : operation.id ≡ id =
          ground (arith, find_sound (has_operation_id id) s.operations operation there) in
        (
          operation,
          (
            find-Elem (has_operation_id id) s.operations operation there,
            (is_ready-eq operation.status (ground arith), ground arith),
          ),
        )
  ]

  Step-IsOrderly : {s t : Management} → Step config s t → IsOrderly s → IsOrderly t × Forward s t
  unfolding finish_scan finish_execution background_failed delete_operation
  Step-IsOrderly {s} (created id now input answer new h) c =
      let (same, (is_scanning, after)) = create_operation-ok id now input s answer h in
      subst (λ t. IsOrderly t × Forward s t) (sym after)
        (added-IsOrderly s c answer (subst (λ i. IsNew i s) (sym same) new) is_scanning)
  Step-IsOrderly {s} (started id own answer h) c =
      let (operation, (there, (is_ready, after))) = transition-ok id own s answer h in
      subst (λ t. IsOrderly t × Forward s t) (sym after)
        (begun-IsOrderly s c operation there is_ready)
  Step-IsOrderly {s} (deleted id) c =
      fewer s c (delete_operation config id s).1 (deleted_within id s) (deleted_jobs id s)
  Step-IsOrderly {s} (scanned operation before after e) c =
      ended s c (scan operation) before after ready none e found
  Step-IsOrderly {s} (executed operation before after now e) c =
      ended s c (execute operation) before after done (some now) e finished
  Step-IsOrderly {s} (broken (scan operation) before after now e) c =
      ended s c (scan operation) before after failed (some now) e lost_scan
  Step-IsOrderly {s} (broken (execute operation) before after now e) c =
      ended s c (execute operation) before after failed (some now) e lost_execution
  Step-IsOrderly {s} (forgotten job before after e) c = forgotten-IsOrderly s c job before after e
  Step-IsOrderly {s} restarted c = (
    record { unique = c.unique; one_each = tt; at_work = λ x job m k same. elim k [ ] },
    λ x y m n same. subst (λ (z : Operation). x.status ⟶ z.status) (c.unique x y m n same) kept,
  )

  Reach-IsOrderly : {s t : Management} → Reach config s t → IsOrderly s → IsOrderly t
  Reach-IsOrderly here c = c
  Reach-IsOrderly (next reach step) c = (Step-IsOrderly step (Reach-IsOrderly reach c)).0

  -- Where requests run one after another and ids are new: in every state that is reached from one with
  -- no operations, no two operations have one id, at most one background call is under way for each, and
  -- only while the status of a stored operation says so; and at each further step (a request, the end
  -- or the failure of a background call, a restart of the panel) an operation that stays stored keeps its status or
  -- goes from SCANNING to READY, from READY to EXECUTING, from EXECUTING to DONE, or from SCANNING or
  -- EXECUTING to FAILED. So one that is DONE or FAILED stays so.
  pub Step-Forward :
      {s t : Management}
      → Reach config (record { operations = []; jobs = [] }) s
      → Step config s t
      → IsOrderly s × Forward s t
  Step-Forward {s} reach step =
      let c = Reach-IsOrderly reach (record {
        unique = λ x y m n same. elim m [ ];
        one_each = tt;
        at_work = λ x job m k same. elim m [ ];
      }) in
      (c, (Step-IsOrderly step c).1)
