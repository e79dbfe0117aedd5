-- ===== src/Callbacks/RedisRepository/Simulation.antt =====
-- One call of callback.redis-repository.ts, with nothing in between its commands, against the same
-- call of callback.memory-repository.ts.
use mocko.Base.{
  ◌≡◌, sym, ◌∙◌, subst, ◌↔◌, inl, inr, Text, false, none, some, List, [], arith, Elem, ◌==◌,
  text_eq, if◌then◌else◌, Option-cases,
}
use mocko.Base.Dict
use mocko.Base.Dict.{get-set, get-delete}
use mocko.Callbacks.Pending.{PendingCallback}
use mocko.Callbacks.MemoryRepository
use mocko.Callbacks.MemoryRepository.{Repository, is_held, is_due, with_held_at}
use mocko.Callbacks.MemoryRepository.Valid
use mocko.Callbacks.MemoryRepository.Valid.{id_of_get}
use mocko.Callbacks.MemoryRepository.Lifecycle.{
  Call, add, wake, fire, hold_at, drop, drop_all, to_list, step,
}
use mocko.Callbacks.RedisRepository.{
  Backend, State, find_pending, schedule, claim_due, claim, hold, cancel, clear,
}
use mocko.Callbacks.RedisRepository.Stored.{IsValid, Stored, find_pending-Stored}
use mocko.Callbacks.RedisRepository.Effects.{Without, claim-Without, cancel-Without}
use mocko.Callbacks.RedisRepository.Arrivals.{clear-Stored}

module _ {P : Type 0} (b : Backend P) where
  -- A call of the repository in Redis, with nothing in between its commands.
  unfoldable pub redis_step : Call P → State b → List (PendingCallback P) × State b
  redis_step (add p) s = ([], schedule b p s)
  redis_step (wake now) s = claim_due b now s
  redis_step (fire id) s = (to_list (claim b id s s).0, (claim b id s s).1)
  redis_step (hold_at id t) s = ([], (hold b id t s s).1)
  redis_step (drop id) s = ([], (cancel b id s s).1)
  redis_step drop_all s = ([], clear b s)

  -- An entry that is scheduled is not held, and its id is new.
  abbrev pub IsFreshCall : Call P → Repository P → Type 0
  IsFreshCall (add p) m = (is_held p ≡ false) × (Dict.get p.id m ≡ none)
  IsFreshCall _ m = Unit

  -- The state in Redis has the entries of the map in memory.
  pub record Refines (m : Repository P) (s : State b) : Type 0 where
    pub memory : MemoryRepository.Valid.IsValid m
    pub redis : IsValid b s
    pub same : (k : Text) (p : PendingCallback P) → Stored b k p s ↔ (Dict.get k m ≡ some p)

  -- What both hand out, and what both then have.
  abbrev pub Simulates : Call P → Repository P → State b → Type 0
  Simulates c m s =
      ((p : PendingCallback P) → Elem p (redis_step c s).0 ↔ Elem p (step c m).0)
      × Refines (step c m).1 (redis_step c s).1

  module _ (m : Repository P) (s : State b) (r : Refines m s) where
    pub find_pending-get : (k : Text) → find_pending b k s ≡ Dict.get k m
    find_pending-get k = elim (Option-cases (Dict.get k m)) [
      | inr (p, e) ↦ (find_pending-Stored b s r.redis k p).1 ((r.same k p).1 e) ∙ sym e
      | inl n ↦ elim (Option-cases (find_pending b k s)) [
        | inl n' ↦ n' ∙ sym n
        | inr (p, e) ↦
            let e' : Dict.get k m ≡ some p =
              (r.same k p).0 ((find_pending-Stored b s r.redis k p).0 e) in
            absurd (ground arith)
      ]
    ]

    delete-same :
        (id k : Text) (t : State b) (m' : Repository P) (p : PendingCallback P)
        → Without b id s t
        → Dict.get k m' ≡ (if k == id then none else Dict.get k m)
        → Stored b k p t ↔ (Dict.get k m' ≡ some p)
    delete-same id k t m' p w at = (
      λ st.
          let (other, old) = (w.stored k p).0 st in
          let e : Dict.get k m ≡ some p = (r.same k p).0 old in ground arith,
      λ e. elim (text_eq.dec k id) [
        | yes same ↦ absurd (ground arith)
        | no other ↦ (w.stored k p).1 (other, (r.same k p).1 (ground arith))
      ],
    )

    claim_lem :
        (id : Text)
        → ((MemoryRepository.claim id m).0 ≡ Dict.get id m)
          × ((k : Text)
              → Dict.get k (MemoryRepository.claim id m).1
                ≡ (if k == id then none else Dict.get k m))
    unfolding MemoryRepository.claim
    claim_lem id = elim (Option-cases (Dict.get id m)) [
      | inl n ↦ (ground arith, λ k. ground arith)
      | inr (p, e) ↦ (ground arith, λ k. ground (arith, get-delete k id m))
    ]

    pub Simulates-fire : (id : Text) → Simulates (fire id) m s
    unfolding redis_step step
    Simulates-fire id =
        let (answer, w) = claim-Without b s r.redis id in
        let (taken, at) = claim_lem id in
        let agree : (claim b id s s).0 ≡ (MemoryRepository.claim id m).0 =
          answer ∙ (find_pending-get id ∙ sym taken) in
        (
          λ p.
              subst (λ o. Elem p (to_list (claim b id s s).0) ↔ Elem p (to_list o)) agree
                (λ x. x, λ x. x),
          record {
            memory = MemoryRepository.Valid.claim-IsValid id m r.memory;
            redis = w.valid;
            same = λ k p.
                delete-same id k (claim b id s s).1 (MemoryRepository.claim id m).1 p w (at k);
          },
        )

    pub Simulates-drop : (id : Text) → Simulates (drop id) m s
    unfolding redis_step step MemoryRepository.cancel
    Simulates-drop id =
        let (answer, w) = cancel-Without b s r.redis id in
        (
          λ p. (λ x. x, λ x. x),
          record {
            memory = MemoryRepository.Valid.delete-IsValid id m r.memory;
            redis = w.valid;
            same = λ k p.
                delete-same id k (cancel b id s s).1 (Dict.delete id m) p w (get-delete k id m);
          },
        )

    pub Simulates-drop_all : Simulates drop_all m s
    unfolding redis_step step MemoryRepository.clear Dict.get
    Simulates-drop_all =
        let (valid, nothing) = clear-Stored b s in
        (
          λ p. (λ x. x, λ x. x),
          record {
            memory = record { nodup = tt; keyed = tt };
            redis = valid;
            same = λ k p. (λ st. absurd (nothing k p st), λ e. absurd (ground arith));
          },
        )
