-- ===== src/Tests/Pending.antt =====
-- The theorems on mocko-core/src/api/callback, at two pending callbacks of which one is held.
use mocko.Base.{
  ℕ, ◌+◌, ◌≤◌, ◌≡◌, refl, inl, inr, ◌↔◌, ◌⊎◌, Text, txt, Bool, true, false, Option, none, some,
  List, [], ◌∷◌, ◌++◌, arith, Elem, text_eq, if◌then◌else◌,
}
use native.Mathlib.Decide.{ℕ_discrete}
use mocko.Base.Dict
use mocko.Definitions.Data.{Callback, MockoDefinition}
use mocko.Callbacks.Pending.{PendingCallback, count_id}
use mocko.Callbacks.MemoryRepository
use mocko.Callbacks.MemoryRepository.{Repository, is_held, is_due, claim_due, next_due_at}
use mocko.Callbacks.MemoryRepository.Valid.{IsValid}
use mocko.Callbacks.MemoryRepository.Lifecycle.{
  add, wake, fire, hold_at, run, delivered-le-scheduled, held_stays,
}
use mocko.Callbacks.Scheduler
use mocko.Callbacks.Scheduler.{Scheduler, ScheduleRequest, wake_cap_ms, arm_timer}
use mocko.Callbacks.Scheduler.Steps.{Step, Reach, begin, next, initial}
use mocko.Callbacks.Scheduler.Steps
use mocko.Callbacks.Scheduler.Coverage.{timer-le-due}
use mocko.Callbacks.Scheduler.Progress.{due-delivered}
use mocko.Callbacks.Service.{fire_pending}
use mocko.Callbacks.Service.Errors.{AllOrNothing, fire_pending-AllOrNothing}

abbrev early : PendingCallback ℕ
early = record {
  id = txt "a";
  slug = txt "ping";
  payload = 1;
  due_at = 5;
  created_at = 0;
  triggered_by_mock_id = none;
  held_at = none;
}

abbrev held_entry : PendingCallback ℕ
held_entry = record {
  id = txt "b";
  slug = txt "ping";
  payload = 2;
  due_at = 3;
  created_at = 0;
  triggered_by_mock_id = none;
  held_at = some 1;
}

abbrev two : Repository ℕ
two = (txt "a", early) ∷ (txt "b", held_entry) ∷ []

two-IsValid : IsValid two
unfolding Dict.get text_eq ℕ_discrete
two-IsValid = record { nodup = (refl, (refl, tt)); keyed = (refl, (refl, tt)) }

abbrev request : ScheduleRequest ℕ
request = record { slug = txt "ping"; payload = 1; delay = 5; triggered_by_mock_id = none }

abbrev on : Scheduler ℕ
on = Scheduler.start 0 (initial ℕ false)

abbrev idle : Scheduler ℕ
idle = Scheduler.resume [] [] 0 on

abbrev storing : Scheduler ℕ
storing = Scheduler.schedule request (txt "a") 0 idle

abbrev ready : Scheduler ℕ
ready = Scheduler.arm 5 [] 0 0 storing

ready-Reach : Reach (initial ℕ false) 0 ready
unfolding Scheduler.start Scheduler.wake Scheduler.resume Scheduler.schedule claim_due
    MemoryRepository.list mocko.Base.sort next_due_at
ready-Reach =
    let now : ◌≤◌ 0 0 = omega arith in
    next
      (next (next (next begin now Steps.started) now (Steps.resumed [] [] [] refl)) now
        (Steps.scheduled request (txt "a")))
      now (Steps.armed [] [] 5 0 refl now)

timer-le-due_example :
    ((u : ℕ) × ((ready.timer ≡ some u) × ((u ≤ 5) ⊎ (u ≤ 0))))
    × ((t : ℕ) × (ready.timer_at ≡ some t) × (t ≤ 5))
unfolding Scheduler.start Scheduler.wake Scheduler.resume Scheduler.schedule Scheduler.arm arm_timer
    claim_due MemoryRepository.list Dict.get MemoryRepository.schedule Dict.set mocko.Base.sort
    text_eq ℕ_discrete
timer-le-due_example = timer-le-due false 0 ready early ready-Reach refl refl refl refl refl

due-delivered_example :
    (u : ℕ) × (((ready.timer ≡ some u) × (u ≤ 9))
      × ((after : Scheduler ℕ) × ((Step 9 ready (Scheduler.wake 9 ready)
              × Step 9 (Scheduler.wake 9 ready) after)
            × (Elem early after.delivered × (Dict.get (txt "a") after.repository ≡ none)))))
unfolding Scheduler.start Scheduler.wake Scheduler.resume Scheduler.schedule Scheduler.arm arm_timer
    claim_due MemoryRepository.list Dict.get MemoryRepository.schedule Dict.set mocko.Base.sort
    text_eq ℕ_discrete
due-delivered_example =
    due-delivered false 0 ready early 9 ready-Reach refl refl refl refl refl (omega arith)
      (omega arith)

delivered-le-scheduled_example :
    count_id (txt "a") (run (add early ∷ fire (txt "a") ∷ wake 9 ∷ []) two).0 ≤ 2
unfolding text_eq ℕ_discrete Dict.get
delivered-le-scheduled_example =
    delivered-le-scheduled (txt "a") (add early ∷ fire (txt "a") ∷ wake 9 ∷ []) two two-IsValid

held_stays_example :
    (Dict.get (txt "b") (run (wake 9 ∷ fire (txt "a") ∷ hold_at (txt "b") 7 ∷ []) two).1
      ≡ some held_entry)
    × (count_id (txt "b") (run (wake 9 ∷ fire (txt "a") ∷ hold_at (txt "b") 7 ∷ []) two).0 ≡ 0)
unfolding text_eq ℕ_discrete Dict.get
held_stays_example =
    held_stays (txt "b") held_entry refl (wake 9 ∷ fire (txt "a") ∷ hold_at (txt "b") 7 ∷ []) two
      two-IsValid (refl, (refl, (refl, tt))) refl

-- "ping" goes to a URL, "lost" to a host that is not there.
abbrev callback : Text → Option Text → Callback
callback slug host = record {
  id = none;
  slug = slug;
  name = none;
  source = none;
  file_path = none;
  method = txt "POST";
  host = host;
  path = none;
  url = some (txt "http://a.b/c");
  delay = 0;
  headers = [];
  body = none;
}

abbrev definitions : MockoDefinition ℕ
definitions = record {
  mocks = [];
  hosts = [];
  callbacks = callback (txt "ping") none ∷ callback (txt "lost") (some (txt "gone")) ∷ [];
  data_blocks = none;
}

abbrev undeliverable : PendingCallback ℕ
undeliverable = record early { slug = txt "lost" }

abbrev one_lost : Repository ℕ
one_lost = (txt "a", undeliverable) ∷ []

fire_pending-AllOrNothing_example :
    AllOrNothing definitions (txt "a") two (fire_pending definitions (txt "a") two two)
fire_pending-AllOrNothing_example = fire_pending-AllOrNothing definitions (txt "a") two two
