-- ===== src/Callbacks/Scheduler/Live.antt =====
-- Each piece of the scheduler keeps every due time covered: by the timer, or by something on its way
-- that will set it.
use mocko.Base.{
  ℕ, ◌+◌, ◌≤◌, ◌≡◌, refl, sym, subst, ◌∙◌, inl, inr, ◌⊎◌, true, false, Text, some, List, [], ◌∷◌,
  ◌++◌, arith, Elem, text_eq, Bool-cases, Option-cases,
}
use mocko.Base.Dict
use mocko.Base.Dict.{get-set, get-delete}
use mocko.Callbacks.Pending.{PendingCallback}
use mocko.Callbacks.MemoryRepository
use mocko.Callbacks.MemoryRepository.{Repository, is_held, with_held_at}
use mocko.Callbacks.MemoryRepository.Valid.{IsValid, schedule-IsValid, claim_due-IsValid}
use mocko.Callbacks.MemoryRepository.Next.{next_due_at-IsBelow}
use mocko.Callbacks.Scheduler.{
  ScheduleRequest, Scheduler, arm_timer, wake, resume, start, stop, pending_of, schedule, arm,
  arm_next,
}
use mocko.Callbacks.Scheduler.Timer.{
  arm_timer_bounds, arm_timer_earlier, arm_timer_frame, IsTimed, later-IsTimed, arm_timer-IsTimed,
}

-- Something on its way will arm the timer for a due time, or the timer is set for it.
pub data Covered {P : Type 0} (s : Scheduler P) (due_at : ℕ) : Type 0 where
  by_timer : (t : ℕ) → s.timer_at ≡ some t → t ≤ due_at → Covered s due_at
  by_wake : (due : List (PendingCallback P)) → Elem due s.waking → Covered s due_at
  by_arming : (t : ℕ) → Elem t s.arming → t ≤ due_at → Covered s due_at

pub record IsLive {P : Type 0} (clock : ℕ) (s : Scheduler P) : Type 0 where
  pub timed : IsTimed clock s
  pub valid : IsValid s.repository
  pub covered :
      (p : PendingCallback P)
      → s.started ≡ true
      → Dict.get p.id s.repository ≡ some p
      → is_held p ≡ false
      → Covered s p.due_at

Elem-split {ℓ} :
    {A : Type ℓ} (a x : A) (before after : List A)
    → Elem a (before ++ x ∷ after)
    → (a ≡ x) ⊎ Elem a (before ++ after)
Elem-split a x [] after m = m
Elem-split a x (b ∷ before) after (inl e) = inr (inl e)
Elem-split a x (b ∷ before) after (inr m) = elim (Elem-split a x before after m) [
  | inl e ↦ inl e
  | inr m' ↦ inr (inr m')
]

Elem-snoc {ℓ} : {A : Type ℓ} (a : A) (xs : List A) → Elem a (xs ++ a ∷ [])
Elem-snoc a [] = inl refl
Elem-snoc a (x ∷ xs) = inr (Elem-snoc a xs)

pub later-IsLive :
    {P : Type 0} (now clock : ℕ) (s : Scheduler P) → now ≤ clock → IsLive now s → IsLive clock s
later-IsLive now clock s le l = record {
  timed = later-IsTimed now clock s le l.timed;
  valid = l.valid;
  covered = l.covered;
}

module _ {P : Type 0} (clock : ℕ) (s : Scheduler P) (l : IsLive clock s) where
  pub wake-IsLive : (now : ℕ) → IsLive clock (wake now s)
  unfolding wake
  wake-IsLive now = record {
    timed = record { fires = λ t. cc };
    valid = claim_due-IsValid now s.repository l.valid;
    covered = λ p on e free.
        by_wake (MemoryRepository.claim_due now s.repository).0
          (Elem-snoc (MemoryRepository.claim_due now s.repository).0 s.waking);
  }

  pub stop-IsLive : IsLive clock (stop s)
  unfolding stop
  stop-IsLive = elim (Option-cases s.timer) [
    | inl e ↦
        rw (e, stop)
          (record {
            timed = record {
              fires =
                  λ t set. let (u, (on, by_then)) = l.timed.fires t set in absurd (ground arith);
            };
            valid = l.valid;
            covered = λ p on. cc;
          })
    | inr (t, e) ↦
        rw (e, stop)
          (record { timed = record { fires = λ t. cc }; valid = l.valid; covered = λ p on. cc })
  ]

  -- `s` with the due time taken off its way, at which `armTimer` runs
  module _ (before after : List ℕ) (due_at now : ℕ) (e : s.arming ≡ before ++ due_at ∷ after) where
    abbrev taken : Scheduler P
    taken = record s { arming = before ++ after }

    Covered-armed :
        (d : ℕ) → s.started ≡ true → Covered s d → Covered (arm_timer due_at now clock taken) d
    Covered-armed d on (by_timer t at le) =
        let (u, at', le') = arm_timer_earlier due_at now clock taken t at in
        by_timer u at' (omega arith)
    Covered-armed d on (by_wake due m) =
        by_wake due (subst (Elem due) (sym (arm_timer_frame due_at now clock taken).1) m)
    Covered-armed d on (by_arming t m le) =
        elim (Elem-split t due_at before after (subst (Elem t) e m)) [
          | inl same ↦
              let (u, at', le', capped) = arm_timer_bounds due_at now clock taken on in
              by_timer u at' (omega arith)
          | inr m' ↦
              by_arming t (subst (Elem t) (sym (arm_timer_frame due_at now clock taken).2) m') le
        ]

    pub armed-IsLive : IsLive clock (arm due_at (before ++ after) now clock s)
    unfolding arm
    armed-IsLive =
        let frame = arm_timer_frame due_at now clock taken in
        record {
          timed = arm_timer-IsTimed due_at now clock taken (record { fires = l.timed.fires });
          valid = rw frame.0 l.valid;
          covered = λ p on stored free.
              let on' : s.started ≡ true = sym frame.3 ∙ on in
              Covered-armed p.due_at on' (l.covered p on' (rw frame.0 at stored) free);
        }

  next_arming-covers :
      (now : ℕ) (p : PendingCallback P)
      → Dict.get p.id s.repository ≡ some p
      → is_held p ≡ false
      → (t : ℕ) × Elem t
          (arm_next s.uses_shared_store now (MemoryRepository.next_due_at s.repository) s.arming)
        × (t ≤ p.due_at)
  unfolding arm_next
  next_arming-covers now p stored free =
      let (t, e, le) = next_due_at-IsBelow s.repository l.valid p stored free in
      (t, rw (e, arm_next) (inl refl), le)

  pub resume-IsLive :
      (others : List (List (PendingCallback P))) (due : List (PendingCallback P)) (now : ℕ)
      → IsLive clock (resume due others now s)
  unfolding resume
  resume-IsLive others due now = record {
    timed = record { fires = l.timed.fires };
    valid = l.valid;
    covered = λ p on stored free.
        let (t, m, le) = next_arming-covers now p stored free in by_arming t m le;
  }

  pub start-IsLive : (now : ℕ) → IsLive clock (start now s)
  unfolding start wake
  start-IsLive now = elim (Bool-cases s.started) [
    | inl on ↦ simp (on, start) l
    | inr off ↦
        rw (off, start, wake)
          (record {
            timed = record { fires = λ t. cc };
            valid = claim_due-IsValid now s.repository l.valid;
            covered = λ p on e free.
                by_wake (MemoryRepository.claim_due now s.repository).0
                  (Elem-snoc (MemoryRepository.claim_due now s.repository).0 s.waking);
          })
  ]

  -- What covers a due time still does when the timer and the wakes are as before.
  Covered-keep :
      (t : Scheduler P) (d : ℕ)
      → t.timer_at ≡ s.timer_at
      → t.waking ≡ s.waking
      → ((v : ℕ) → Elem v s.arming → Elem v t.arming)
      → Covered s d
      → Covered t d
  Covered-keep t d same_timer same_waking more (by_timer u at le) = by_timer u (same_timer ∙ at) le
  Covered-keep t d same_timer same_waking more (by_wake due m) =
      by_wake due (subst (Elem due) (sym same_waking) m)
  Covered-keep t d same_timer same_waking more (by_arming u m le) = by_arming u (more u m) le

  pub schedule-IsLive :
      (request : ScheduleRequest P) (id : Text) (now : ℕ) → IsLive clock (schedule request id now s)
  unfolding schedule
  schedule-IsLive request id now = record {
    timed = record { fires = l.timed.fires };
    valid = schedule-IsValid (pending_of request id now) s.repository l.valid;
    covered = λ p on stored free. elim (text_eq.dec p.id id) [
      | yes here ↦ by_arming (now + request.delay) (inl refl) (
          unfold MemoryRepository.schedule in
          ground (arith, get-set p.id id (pending_of request id now) s.repository))
      | no other ↦
          Covered-keep _ p.due_at refl refl (λ v m. inr m)
            (l.covered p on
              (unfold MemoryRepository.schedule in
                ground (arith, get-set p.id id (pending_of request id now) s.repository))
              free)
    ];
  }

  -- A call that only takes or holds entries.
  pub shrunk-IsLive :
      (r : Repository P)
      → IsValid r
      → ((p : PendingCallback P)
          → Dict.get p.id r ≡ some p
          → is_held p ≡ false
          → Dict.get p.id s.repository ≡ some p)
      → IsLive clock (record s { repository = r })
  shrunk-IsLive r v sub = record {
    timed = record { fires = l.timed.fires };
    valid = v;
    covered = λ p on stored free.
        Covered-keep _ p.due_at refl refl (λ v m. m) (l.covered p on (sub p stored free) free);
  }

-- The calls that the service makes add no entry that the scheduler would have to see.
module _ {P : Type 0} (r : Repository P) (v : IsValid r) (id : Text) (p : PendingCallback P) where
  pub claim-sub :
      Dict.get p.id (MemoryRepository.claim id r).1 ≡ some p
      → is_held p ≡ false
      → Dict.get p.id r ≡ some p
  claim-sub e free = elim (Option-cases (Dict.get id r)) [
    | inl gone ↦ unfold MemoryRepository.claim in ground arith
    | inr (q, there) ↦ unfold MemoryRepository.claim in ground (arith, get-delete p.id id r)
  ]

  pub hold-sub :
      (now : ℕ)
      → Dict.get p.id (MemoryRepository.hold id now r).1 ≡ some p
      → is_held p ≡ false
      → Dict.get p.id r ≡ some p
  hold-sub now e free = elim (Option-cases (Dict.get id r)) [
    | inl gone ↦ unfold MemoryRepository.hold in ground arith
    | inr (q, there) ↦
        unfold MemoryRepository.hold in ground (arith, get-set p.id id (with_held_at q now) r)
  ]

  pub cancel-sub :
      Dict.get p.id (MemoryRepository.cancel id r).1 ≡ some p
      → is_held p ≡ false
      → Dict.get p.id r ≡ some p
  unfolding MemoryRepository.cancel
  cancel-sub e free = ground (arith, get-delete p.id id r)
