-- ===== src/Callbacks/Scheduler/Coverage.antt =====
-- No wake-up is lost, whatever the interleaving of the scheduler's pieces with the calls of the service.
use mocko.Base.{
  ℕ, ◌≤◌, ◌≡◌, ◌⊎◌, inl, inr, arith, subst, Bool, true, false, some, [], ◌++◌, Elem, text_eq,
}
use mocko.Base.Dict
use mocko.Base.Dict.{get-set, get-delete}
use mocko.Callbacks.Pending.{PendingCallback}
use mocko.Callbacks.MemoryRepository
use mocko.Callbacks.MemoryRepository.{Repository, is_held, with_held_at}
use mocko.Callbacks.MemoryRepository.Valid.{claim-IsValid, hold-IsValid, cancel-IsValid}
use mocko.Callbacks.Scheduler.{Scheduler}
use mocko.Callbacks.Scheduler.Steps.{
  Step, started, stopped, woken, resumed, armed, scheduled, fired, held, cancelled, cleared, Reach,
  begin, next, initial,
}
use mocko.Callbacks.Scheduler.Live.{
  Covered, by_timer, by_wake, by_arming, IsLive, later-IsLive, wake-IsLive, stop-IsLive,
  armed-IsLive, resume-IsLive, start-IsLive, schedule-IsLive, shrunk-IsLive, claim-sub, hold-sub,
  cancel-sub,
}

Step-IsLive :
    {P : Type 0} {clock : ℕ} {s t : Scheduler P} → Step clock s t → IsLive clock s → IsLive clock t
Step-IsLive {clock = clock} {s = s} started l = start-IsLive clock s l clock
Step-IsLive {clock = clock} {s = s} stopped l = stop-IsLive clock s l
Step-IsLive {clock = clock} {s = s} (woken fires set due) l = wake-IsLive clock s l clock
Step-IsLive {clock = clock} {s = s} (resumed before after due e) l =
    resume-IsLive clock s l (before ++ after) due clock
Step-IsLive {clock = clock} {s = s} (armed before after due_at now e le) l =
    armed-IsLive clock s l before after due_at now e
Step-IsLive {clock = clock} {s = s} (scheduled request id) l =
    schedule-IsLive clock s l request id clock
Step-IsLive {clock = clock} {s = s} (fired id) l =
    shrunk-IsLive clock s l (MemoryRepository.claim id s.repository).1
      (claim-IsValid id s.repository l.valid) (claim-sub s.repository l.valid id)
Step-IsLive {clock = clock} {s = s} (held id) l =
    shrunk-IsLive clock s l (MemoryRepository.hold id clock s.repository).1
      (hold-IsValid id clock s.repository l.valid) (λ p. hold-sub s.repository l.valid id p clock)
Step-IsLive {clock = clock} {s = s} (cancelled id) l =
    shrunk-IsLive clock s l (MemoryRepository.cancel id s.repository).1
      (cancel-IsValid id s.repository l.valid) (cancel-sub s.repository l.valid id)
Step-IsLive {clock = clock} {s = s} cleared l =
    unfold MemoryRepository.clear Dict.get in
    shrunk-IsLive clock s l [] (record { nodup = tt; keyed = tt }) (λ p e free. cc)

pub initial-IsLive : {P : Type 0} (shared : Bool) → IsLive 0 (initial P shared)
initial-IsLive shared = record {
  timed = record { fires = λ t. cc };
  valid = record { nodup = tt; keyed = tt };
  covered = λ p on stored free. cc;
}

pub Reach-IsLive :
    {P : Type 0} {s : Scheduler P} {clock : ℕ} {t : Scheduler P}
    → Reach s clock t
    → IsLive 0 s
    → IsLive clock t
Reach-IsLive begin l = l
Reach-IsLive (next {now = now} {clock = clock} {t = t} r le step) l =
    Step-IsLive step (later-IsLive now clock t le (Reach-IsLive r l))

Covered-timer :
    {P : Type 0} (s : Scheduler P) (d : ℕ)
    → s.waking ≡ []
    → s.arming ≡ []
    → Covered s d
    → (t : ℕ) × (s.timer_at ≡ some t) × (t ≤ d)
Covered-timer s d no_wake no_arming (by_timer t at le) = (t, at, le)
Covered-timer s d no_wake no_arming (by_wake due m) = elim (subst (Elem due) no_wake m) [ ]
Covered-timer s d no_wake no_arming (by_arming t m le) = elim (subst (Elem t) no_arming m) [ ]

-- No lost wake-up: in every state that the scheduler reaches from the initial one, by any
-- interleaving of its pieces with the service's calls, where the clock is not set back and the callback
-- of `setTimeout` runs only once its timer is due: if the scheduler is started and none of its methods is
-- under way, then for each stored entry that is not held the timer of `setTimeout` is set, and fires no
-- later than the entry's due time, or no later than the clock's last reading; and `timerAt` is no later
-- than the due time.
pub timer-le-due :
    {P : Type 0} (shared : Bool) (clock : ℕ) (s : Scheduler P) (p : PendingCallback P)
    → Reach (initial P shared) clock s
    → s.started ≡ true
    → s.waking ≡ []
    → s.arming ≡ []
    → Dict.get p.id s.repository ≡ some p
    → is_held p ≡ false
    → ((u : ℕ) × ((s.timer ≡ some u) × ((u ≤ p.due_at) ⊎ (u ≤ clock))))
      × ((t : ℕ) × (s.timer_at ≡ some t) × (t ≤ p.due_at))
timer-le-due shared clock s p r on no_wake no_arming stored free =
    let live = Reach-IsLive r (initial-IsLive shared) in
    let (t, at, le) = Covered-timer s p.due_at no_wake no_arming (live.covered p on stored free) in
    let (u, (set, by_then)) = live.timed.fires t at in
    ((u, (set, elim by_then [ inl v ↦ inl (omega arith) | inr v ↦ inr v ])), (t, at, le))
