-- ===== src/Callbacks/Scheduler/Progress.antt =====
-- A pending callback is delivered once it is due.
use mocko.Base.{
  ℕ, ◌≤◌, ◌≡◌, ap, ◌∙◌, Bool, true, false, none, some, [], ◌∷◌, ◌++◌, Elem, Elem-append, arith,
  text_eq, if◌then◌else◌, inl, inr,
}
use mocko.Base.Dict
use mocko.Callbacks.Pending.{PendingCallback}
use mocko.Callbacks.MemoryRepository
use mocko.Callbacks.MemoryRepository.{is_held, is_due}
use mocko.Callbacks.MemoryRepository.Claims.{Elem-claim_due, get-claim_due, waiting}
use mocko.Callbacks.Scheduler.{Scheduler, wake, resume}
use mocko.Callbacks.Scheduler.Steps.{Step, woken, resumed, Reach, initial}
use mocko.Callbacks.Scheduler.Coverage.{Reach-IsLive, initial-IsLive, timer-le-due}

-- In every state that the scheduler reaches from the initial one by a time, if it is started and none of
-- its methods is under way: for a stored entry that is not held, and any time from then on at which it is
-- due, the timer of `setTimeout` is set and has come; and when its callback, the wake, has run to where it
-- looks for the next due time, the entry is delivered and stored no more.
pub due-delivered :
    {P : Type 0} (shared : Bool) (clock : ℕ) (s : Scheduler P) (p : PendingCallback P) (now : ℕ)
    → Reach (initial P shared) clock s
    → s.started ≡ true
    → s.waking ≡ []
    → s.arming ≡ []
    → Dict.get p.id s.repository ≡ some p
    → is_held p ≡ false
    → clock ≤ now
    → p.due_at ≤ now
    → (u : ℕ) × (((s.timer ≡ some u) × (u ≤ now))
        × ((after : Scheduler P) × ((Step now s (wake now s) × Step now (wake now s) after)
              × (Elem p after.delivered × (Dict.get p.id after.repository ≡ none)))))
unfolding wake resume
due-delivered {P} shared clock s p now r on no_wake no_arming stored free later le =
    let live = Reach-IsLive r (initial-IsLive shared) in
    let due = (MemoryRepository.claim_due now s.repository).0 in
    let is_now : is_due now p ≡ true = ground arith in
    let claimed : Elem p due = (Elem-claim_due now s.repository live.valid p).1 (stored, is_now) in
    let batch : (wake now s).waking ≡ [] ++ due ∷ [] = ap (λ w. w ++ due ∷ []) no_wake in
    let (u, (set, by_then)) =
      (timer-le-due shared clock s p r on no_wake no_arming stored free).0 in
    let come : u ≤ now = elim by_then [ inl v ↦ omega arith | inr v ↦ omega arith ] in
    (
      u,
      (
        (set, come),
        (
          resume due [] now (wake now s),
          (
            (woken u set come, resumed [] [] due batch),
            (
              (Elem-append p s.delivered due).1 (inr claimed),
              get-claim_due now s.repository live.valid p.id
                  ∙ (ap (waiting now) stored ∙ ap (λ b. if b then none else some p) is_now),
            ),
          ),
        ),
      ),
    )
