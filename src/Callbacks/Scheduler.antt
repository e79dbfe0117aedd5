-- ===== src/Callbacks/Scheduler.antt =====
-- mocko-core/src/api/callback/callback-scheduler.service.ts, over the memory repository. A method is
-- cut at its `await`s: `waking` holds the batches claimed by wakes that have yet to deliver them and
-- to look for the next due time, `arming` the due times on their way to `armTimer`.
pub mod Steps
pub mod Timer
pub mod Live
pub mod Coverage
pub mod Progress
use mocko.Base.{
  ℕ, ◌+◌, ◌-◌, min, Text, Bool, true, false, Option, none, some, List, [], ◌∷◌, ◌++◌, leb,
  if◌then◌else◌,
}
use mocko.Callbacks.Pending.{PendingCallback}
use mocko.Callbacks.MemoryRepository
use mocko.Callbacks.MemoryRepository.{Repository}

-- WAKE_CAP_MS
abbrev pub wake_cap_ms : ℕ
wake_cap_ms = 10000

pub record ScheduleRequest (P : Type 0) : Type 0 where
  pub slug : Text
  pub payload : P
  pub delay : ℕ
  pub triggered_by_mock_id : Option Text

-- `timer` is the time at which the pending `setTimeout` fires.
pub record Scheduler (P : Type 0) : Type 0 where
  pub repository : Repository P
  pub uses_shared_store : Bool
  pub timer : Option ℕ
  pub timer_at : Option ℕ
  pub started : Bool
  pub waking : List (List (PendingCallback P))
  pub arming : List ℕ
  pub delivered : List (PendingCallback P)

-- `this.timerAt !== null && this.timerAt <= cappedAt`
abbrev pub fires_by : Option ℕ → ℕ → Bool
fires_by none t = false
fires_by (some u) t = leb u t

-- the branches of `armFromRepository` on what `nextDueAt` returned
unfoldable pub arm_next : (uses_shared_store : Bool) → ℕ → Option ℕ → List ℕ → List ℕ
arm_next shared now (some t) arming = t ∷ arming
arm_next shared now none arming = if shared then (now + wake_cap_ms) ∷ arming else arming

module _ {P : Type 0} where
  -- `armTimer`; `now` and `later` are its two readings of the clock
  unfoldable pub arm_timer : ℕ → (now later : ℕ) → Scheduler P → Scheduler P
  arm_timer due_at now later s =
      if s.started
      then (let capped_at = min due_at (now + wake_cap_ms) in
          if fires_by s.timer_at capped_at
          then s
          else record s { timer = some (later + (capped_at - later)); timer_at = some capped_at })
      else s

  -- `wake`, up to the return of `claimDue`
  unfoldable pub wake : ℕ → Scheduler P → Scheduler P
  wake now s =
      let (due, left) = MemoryRepository.claim_due now s.repository in
      record s { timer = none; timer_at = none; repository = left; waking = s.waking ++ due ∷ [] }

  -- the rest of `wake` for one claimed batch, up to the return of `nextDueAt`
  unfoldable pub resume :
      List (PendingCallback P) → List (List (PendingCallback P)) → ℕ → Scheduler P → Scheduler P
  unfolding arm_next
  resume due others now s = record s {
    waking = others;
    delivered = s.delivered ++ due;
    arming = arm_next s.uses_shared_store now (MemoryRepository.next_due_at s.repository) s.arming;
  }

  unfoldable pub start : ℕ → Scheduler P → Scheduler P
  unfolding wake
  start now s = if s.started then s else wake now (record s { started = true })

  unfoldable pub stop : Scheduler P → Scheduler P
  stop s = elim s.timer [
    | none ↦ record s { started = false }
    | some _ ↦ record s { started = false; timer = none; timer_at = none }
  ]

  -- the entry that `schedule` makes; `id` is the fresh `uuidv4()`
  abbrev pub pending_of : ScheduleRequest P → Text → ℕ → PendingCallback P
  pending_of request id now = record {
    id = id;
    slug = request.slug;
    payload = request.payload;
    due_at = now + request.delay;
    created_at = now;
    triggered_by_mock_id = request.triggered_by_mock_id;
    held_at = none;
  }

  -- `schedule`, up to the return of the repository's `schedule`
  unfoldable pub schedule : ScheduleRequest P → Text → ℕ → Scheduler P → Scheduler P
  schedule request id now s =
      let pending = pending_of request id now in
      record s {
        repository = MemoryRepository.schedule pending s.repository;
        arming = pending.due_at ∷ s.arming;
      }

  -- `armTimer` reached by one of the due times on their way
  unfoldable pub arm : ℕ → List ℕ → (now later : ℕ) → Scheduler P → Scheduler P
  unfolding arm_timer
  arm due_at others now later s = arm_timer due_at now later (record s { arming = others })
