-- ===== src/Control/Operations/Jobs.antt =====
-- The background calls of mocko-control/lib/management/operation.service.ts: what they store at their
-- end, and how they, the requests and a restart of the panel follow each other. Ids are new (UUIDs).
-- Requests run one after another here; Control/Operations/Overlap has two that overlap.
use mocko.Base.{ℕ, Text, ◌≡◌, ◌≢◌, Bool, none, some, List, [], ◌∷◌, ◌++◌, Elem, text_eq}
use mocko.Base.Result.{ok}
use mocko.Control.Operations.{
  OperationStatus, scanning, ready, executing, done, failed, Operation, CreateOperationInput, Job,
  scan, execute, Management, StoreConfig, update_operation, background_failed, create_operation,
  transition_to_executing, delete_operation,
}

abbrev pub job_operation : Job → Operation
job_operation (scan operation) = operation
job_operation (execute operation) = operation

abbrev pub job_id : Job → Text
job_id job = (job_operation job).id

-- the last update of each scan of the store
unfoldable pub finish_scan : Text → Management → Management
unfolding update_operation
finish_scan operation_id s = update_operation operation_id ready none s

-- the last update of each execution of the store
unfoldable pub finish_execution : Text → ℕ → Management → Management
unfolding update_operation
finish_execution operation_id now s = update_operation operation_id done (some now) s

abbrev pub HasNone : Text → List Job → Type 0
HasNone id jobs = (job : Job) → Elem job jobs → job_id job ≢ id

-- No operation and no background call has the id.
abbrev pub IsNew : Text → Management → Type 0
IsNew id s = ((x : Operation) → Elem x s.operations → x.id ≢ id) × HasNone id s.jobs

abbrev pub without : List Job → List Job → Management → Management
without before after s = record s { jobs = before ++ after }

pub data Step (config : StoreConfig) (s : Management) : Management → Type 0 where
  created :
      (id : Text) (now : ℕ) (input : CreateOperationInput) (operation : Operation)
      → IsNew id s
      → (create_operation config id now input s).0 ≡ ok operation
      → Step config s (create_operation config id now input s).1
  started :
      (id : Text) (has_own_mocks : Bool) (operation : Operation)
      → (transition_to_executing config id has_own_mocks s).0 ≡ ok operation
      → Step config s (transition_to_executing config id has_own_mocks s).1
  deleted : (id : Text) → Step config s (delete_operation config id s).1
  scanned :
      (operation : Operation) (before after : List Job)
      → s.jobs ≡ before ++ scan operation ∷ after
      → Step config s (finish_scan operation.id (without before after s))
  executed :
      (operation : Operation) (before after : List Job) (now : ℕ)
      → s.jobs ≡ before ++ execute operation ∷ after
      → Step config s (finish_execution operation.id now (without before after s))
  broken :
      (job : Job) (before after : List Job) (now : ℕ)
      → s.jobs ≡ before ++ job ∷ after
      → Step config s (background_failed (job_id job) now (without before after s))
  -- the update after a failure fails too
  forgotten :
      (job : Job) (before after : List Job)
      → s.jobs ≡ before ++ job ∷ after
      → Step config s (without before after s)
  restarted : Step config s (record s { jobs = [] })

pub data Reach (config : StoreConfig) (s : Management) : Management → Type 0 where
  here : Reach config s s
  next : {t u : Management} → Reach config s t → Step config t u → Reach config s u

infix 40 ◌⟶◌
pub data ◌⟶◌ : OperationStatus → OperationStatus → Type 0 where
  kept : {status : OperationStatus} → status ⟶ status
  found : scanning ⟶ ready
  begun : ready ⟶ executing
  finished : executing ⟶ done
  lost_scan : scanning ⟶ failed
  lost_execution : executing ⟶ failed
