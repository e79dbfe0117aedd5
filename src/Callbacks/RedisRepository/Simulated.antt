-- ===== src/Callbacks/RedisRepository/Simulated.antt =====
-- Every call of callback.redis-repository.ts against the same call of callback.memory-repository.ts.
use mocko.Base.{
  ℕ, ◌≡◌, sym, ◌∙◌, ap, subst, inl, inr, Text, true, false, none, some, arith, ◌==◌, text_eq,
  if◌then◌else◌, Option-cases,
}
use mocko.Base.Dict
use mocko.Base.Dict.{get-set, get-delete}
use mocko.Callbacks.Pending.{PendingCallback}
use mocko.Callbacks.MemoryRepository
use mocko.Callbacks.MemoryRepository.{Repository, is_held, is_due, with_held_at}
use mocko.Callbacks.MemoryRepository.Valid
use mocko.Callbacks.MemoryRepository.Valid.{id_of_get}
use mocko.Callbacks.MemoryRepository.Claims.{Elem-claim_due, get-claim_due}
use mocko.Callbacks.MemoryRepository.Lifecycle.{
  Call, add, wake, fire, hold_at, drop, drop_all, step,
}
use mocko.Callbacks.RedisRepository.{Backend, State, find_member, hold}
use mocko.Callbacks.RedisRepository.Stored.{Stored, find_member-none, some_inj}
use mocko.Callbacks.RedisRepository.Arrivals.{schedule-Stored}
use mocko.Callbacks.RedisRepository.Holds.{hold_found, hold_missing}
use mocko.Callbacks.RedisRepository.Due.{
  is_held_of_Held, redis_claim_due-Stored, redis_claim_due-left,
}
use mocko.Callbacks.RedisRepository.Simulation.{
  redis_step, IsFreshCall, Refines, Simulates, find_pending-get, Simulates-fire, Simulates-drop,
  Simulates-drop_all,
}

module _ {P : Type 0} (b : Backend P) where
  module _ (m : Repository P) (s : State b) (r : Refines b m s) where
    Simulates-wake : (now : ℕ) → Simulates b (wake now) m s
    unfolding redis_step step
    Simulates-wake now =
        let (valid, left) = redis_claim_due-left b now s r.redis in
        (
          λ p.
              let (taken, takes) = redis_claim_due-Stored b now s r.redis p in
              let (claimed, claims) = Elem-claim_due now m r.memory p in
              (
                λ e. let (st, due) = taken e in claims ((r.same p.id p).0 st, due),
                λ e. let (at, due) = claimed e in takes ((r.same p.id p).1 at, due),
              ),
          record {
            memory = MemoryRepository.Valid.claim_due-IsValid now m r.memory;
            redis = valid;
            same = λ k p. (
              λ st.
                  let (old, late) = (left k p).0 st in
                  let e : Dict.get k m ≡ some p = (r.same k p).0 old in
                  ground (arith, get-claim_due now m r.memory k),
              λ e. elim (Option-cases (Dict.get k m)) [
                | inl n ↦ absurd (ground (arith, get-claim_due now m r.memory k))
                | inr (q, at) ↦
                    let late : is_due now q ≡ false =
                      ground (arith, get-claim_due now m r.memory k) in
                    let same : q ≡ p = ground (arith, get-claim_due now m r.memory k) in
                    (left k p).1
                      ((r.same k p).1 (at ∙ ap some same), ap (is_due now) (sym same) ∙ late)
              ],
            );
          },
        )

    Simulates-add :
        (p : PendingCallback P)
        → is_held p ≡ false
        → Dict.get p.id m ≡ none
        → Simulates b (add p) m s
    unfolding redis_step step MemoryRepository.schedule
    Simulates-add p free fresh =
        let (valid, stored) =
          schedule-Stored b s r.redis p (find_pending-get b m s r p.id ∙ fresh) free in
        (
          λ q. (λ x. x, λ x. x),
          record {
            memory = MemoryRepository.Valid.set-IsValid p m r.memory;
            redis = valid;
            same = λ k q. (
              λ st. elim ((stored k q).0 st) [
                | inl (here, same) ↦ ground (arith, get-set k p.id p m)
                | inr old ↦
                    let e : Dict.get k m ≡ some q = (r.same k q).0 old in
                    ground (arith, get-set k p.id p m)
              ],
              λ e. (stored k q).1 (elim (text_eq.dec k p.id) [
                | yes here ↦ inl (here, ground (arith, get-set k p.id p m))
                | no other ↦ inr ((r.same k q).1 (ground (arith, get-set k p.id p m)))
              ]),
            );
          },
        )

    -- what the memory has of an id that the set in Redis has not
    not_waiting :
        (id : Text) → find_member b id s ≡ none → (t : ℕ) → (MemoryRepository.hold id t m).1 ≡ m
    unfolding MemoryRepository.hold
    not_waiting id n t = elim (Option-cases (Dict.get id m)) [
      | inl e ↦ ground arith
      | inr (p, e) ↦
          let st : Stored b id p s = (r.same id p).1 e in
          elim st.1 [
            | inl w ↦ absurd (find_member-none b s r.redis id p n w st.0)
            | inr h ↦
                let held : is_held p ≡ true = is_held_of_Held b 0 s r.redis p h in ground arith
          ]
    ]

    get-hold :
        (id k : Text) (t : ℕ) (p : PendingCallback P)
        → Dict.get id m ≡ some p
        → is_held p ≡ false
        → Dict.get k (MemoryRepository.hold id t m).1
          ≡ (if k == id then some (with_held_at p t) else Dict.get k m)
    unfolding MemoryRepository.hold
    get-hold id k t p e free = ground (arith, get-set k id (with_held_at p t) m)

    Simulates-hold : (id : Text) (t : ℕ) → Simulates b (hold_at id t) m s
    unfolding redis_step step
    Simulates-hold id t = elim (Option-cases (find_member b id s)) [
      | inl n ↦ (
        λ p. (λ x. x, λ x. x),
        subst (λ z. Refines b z (hold b id t s s).1) (sym (not_waiting id n t))
            (subst (λ z. Refines b m z) (sym (ap (λ a. a.1) (hold_missing b s r.redis id t n))) r),
      )
      | inr (x, e) ↦
          let (p, st, free, answer, valid, stored) = hold_found b s r.redis id x t e in
          let at : Dict.get id m ≡ some p = (r.same id p).0 st in
          (
            λ q. (λ y. y, λ y. y),
            record {
              memory = MemoryRepository.Valid.hold-IsValid id t m r.memory;
              redis = valid;
              same = λ k q. (
                λ st'. elim ((stored k q).0 st') [
                  | inl (here, same) ↦ ground (arith, get-hold id k t p at free)
                  | inr (other, old) ↦
                      let e' : Dict.get k m ≡ some q = (r.same k q).0 old in
                      ground (arith, get-hold id k t p at free)
                ],
                λ e'. (stored k q).1 (elim (text_eq.dec k id) [
                  | yes here ↦
                      inl (here, some_inj (sym e' ∙ ground (arith, get-hold id k t p at free)))
                  | no other ↦
                      inr (other, (r.same k q).1 (ground (arith, get-hold id k t p at free)))
                ]),
              );
            },
          )
    ]

    pub simulates : (c : Call P) → IsFreshCall b c m → Simulates b c m s
    simulates (add p) (free, fresh) = Simulates-add p free fresh
    simulates (wake now) h = Simulates-wake now
    simulates (fire id) h = Simulates-fire b m s r id
    simulates (hold_at id t) h = Simulates-hold id t
    simulates (drop id) h = Simulates-drop b m s r id
    simulates drop_all h = Simulates-drop_all b m s r
