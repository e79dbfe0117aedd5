-- ===== src/Callbacks/Scheduler/Timer.antt =====
-- What `armTimer` does to the timer.
use mocko.Base.{
  ℕ, ◌+◌, ◌-◌, ◌≤◌, ◌≡◌, ◌⊎◌, refl, sym, subst, inl, inr, true, some, arith, min, leb, Bool-cases,
  Option-cases,
}
use mocko.Callbacks.Scheduler.{Scheduler, wake_cap_ms, fires_by, arm_timer}

module _ {P : Type 0} (due_at now later : ℕ) (s : Scheduler P) where
  -- In a started scheduler, after `armTimer` the timer is set, no later than the due time it was
  -- called with and no later than the wake cap after the first reading of the clock.
  pub arm_timer_bounds :
      s.started ≡ true
      → (u : ℕ) × ((arm_timer due_at now later s).timer_at ≡ some u)
        × (u ≤ due_at)
        × (u ≤ now + wake_cap_ms)
  unfolding arm_timer
  arm_timer_bounds on = elim (Option-cases s.timer_at) [
    | inl none_set ↦ (min due_at (now + wake_cap_ms), ground arith, omega arith, omega arith)
    | inr (u, e) ↦ elim (Bool-cases (leb u (min due_at (now + wake_cap_ms)))) [
      | inl early ↦ (u, ground arith, ground arith, ground arith)
      | inr late ↦ (min due_at (now + wake_cap_ms), ground arith, omega arith, omega arith)
    ]
  ]

  -- It never moves a timer to a later time.
  pub arm_timer_earlier :
      (t : ℕ)
      → s.timer_at ≡ some t
      → (u : ℕ) × ((arm_timer due_at now later s).timer_at ≡ some u) × (u ≤ t)
  unfolding arm_timer
  arm_timer_earlier t e = elim (Bool-cases (s.started)) [
    | inr off ↦ (t, ground arith, omega arith)
    | inl on ↦ elim (Bool-cases (leb t (min due_at (now + wake_cap_ms)))) [
      | inl early ↦ (t, ground arith, omega arith)
      | inr late ↦ (min due_at (now + wake_cap_ms), ground arith, ground arith)
    ]
  ]

  -- Nothing but the timer changes.
  pub arm_timer_frame :
      ((arm_timer due_at now later s).repository ≡ s.repository)
      × ((arm_timer due_at now later s).waking ≡ s.waking)
      × ((arm_timer due_at now later s).arming ≡ s.arming)
      × ((arm_timer due_at now later s).started ≡ s.started)
      × ((arm_timer due_at now later s).delivered ≡ s.delivered)
  unfolding arm_timer
  arm_timer_frame = ground arith

-- The timer is there where `timerAt` says that one is: it fires no later than then, or than the clock.
pub record IsTimed {P : Type 0} (clock : ℕ) (s : Scheduler P) : Type 0 where
  pub fires :
      (t : ℕ) → s.timer_at ≡ some t → (u : ℕ) × ((s.timer ≡ some u) × ((u ≤ t) ⊎ (u ≤ clock)))

pub later-IsTimed :
    {P : Type 0} (now clock : ℕ) (s : Scheduler P) → now ≤ clock → IsTimed now s → IsTimed clock s
later-IsTimed now clock s le h = record {
  fires = λ t e.
      let (u, (set, by_then)) = h.fires t e in
      (u, (set, elim by_then [ inl v ↦ inl v | inr v ↦ inr (omega arith) ]));
}

pub arm_timer-IsTimed :
    {P : Type 0} (due_at now clock : ℕ) (s : Scheduler P)
    → IsTimed clock s
    → IsTimed clock (arm_timer due_at now clock s)
unfolding arm_timer
arm_timer-IsTimed due_at now clock s h = elim (Bool-cases s.started) [
  | inr off ↦
      let same : arm_timer due_at now clock s ≡ s = ground arith in
      subst (IsTimed clock) (sym same) h
  | inl on ↦ elim (Bool-cases (fires_by s.timer_at (min due_at (now + wake_cap_ms)))) [
    | inl early ↦
        let same : arm_timer due_at now clock s ≡ s = ground arith in
        subst (IsTimed clock) (sym same) h
    | inr late ↦
        let capped = min due_at (now + wake_cap_ms) in
        let same : arm_timer due_at now clock s
            ≡ record s { timer = some (clock + (capped - clock)); timer_at = some capped } =
          ground arith in
        subst (IsTimed clock) (sym same) (record {
          fires = λ t e.
              let eq : capped ≡ t = cc in
              (
                clock + (capped - clock),
                (
                  refl,
                  elim (Bool-cases (leb capped clock)) [
                    | inl p ↦ inr (ground arith)
                    | inr p ↦ inl (subst (λ v. clock + (capped - clock) ≤ v) eq (ground arith))
                  ],
                ),
              );
        })
  ]
]
