-- ===== src/Callbacks/Scheduler/Steps.antt =====
-- The interleavings: the scheduler's pieces and the calls of the service, in any order.
use mocko.Base.{ℕ, ◌≤◌, ◌≡◌, Text, Bool, false, none, some, List, [], ◌∷◌, ◌++◌}
use mocko.Callbacks.Pending.{PendingCallback}
use mocko.Callbacks.MemoryRepository
use mocko.Callbacks.Scheduler.{ScheduleRequest, Scheduler, wake, resume, start, stop, schedule, arm}

-- One piece of the scheduler's code, or a call of the repository by the callback service. `clock` is the
-- last reading of the clock in it. The callback of `setTimeout` runs only where the timer is set, at its
-- time or later.
pub data Step {P : Type 0} (clock : ℕ) (s : Scheduler P) : Scheduler P → Type 0 where
  started : Step clock s (start clock s)
  stopped : Step clock s (stop s)
  woken : (fires : ℕ) → s.timer ≡ some fires → fires ≤ clock → Step clock s (wake clock s)
  resumed :
      (before after : List (List (PendingCallback P))) (due : List (PendingCallback P))
      → s.waking ≡ before ++ due ∷ after
      → Step clock s (resume due (before ++ after) clock s)
  armed :
      (before after : List ℕ) (due_at now : ℕ)
      → s.arming ≡ before ++ due_at ∷ after
      → now ≤ clock
      → Step clock s (arm due_at (before ++ after) now clock s)
  scheduled : (request : ScheduleRequest P) (id : Text) → Step clock s (schedule request id clock s)
  fired :
      (id : Text)
      → Step clock s (record s { repository = (MemoryRepository.claim id s.repository).1 })
  held :
      (id : Text)
      → Step clock s (record s { repository = (MemoryRepository.hold id clock s.repository).1 })
  cancelled :
      (id : Text)
      → Step clock s (record s { repository = (MemoryRepository.cancel id s.repository).1 })
  cleared : Step clock s (record s { repository = MemoryRepository.clear s.repository })

-- The states reached by a time, from one at time 0; the clock is not set back.
pub data Reach {P : Type 0} (s : Scheduler P) : ℕ → Scheduler P → Type 0 where
  begin : Reach s 0 s
  next :
      {now clock : ℕ} {t u : Scheduler P}
      → Reach s now t
      → now ≤ clock
      → Step clock t u
      → Reach s clock u

abbrev pub initial : (P : Type 0) → Bool → Scheduler P
initial P shared = record {
  repository = [];
  uses_shared_store = shared;
  timer = none;
  timer_at = none;
  started = false;
  waking = [];
  arming = [];
  delivered = [];
}
