-- ===== src/Callbacks/RedisRepository/Refinement.antt =====
-- Runs of callback.redis-repository.ts against callback.memory-repository.ts: over the same calls, each taken
-- with nothing in between, they hand out and store the same entries.
use mocko.Base.{◌≡◌, ◌↔◌, inl, inr, Text, List, [], ◌∷◌, ◌++◌, Elem, Elem-append, text_eq}
use mocko.Callbacks.Pending.{PendingCallback}
use mocko.Callbacks.MemoryRepository
use mocko.Callbacks.MemoryRepository.{Repository, is_held, is_due, with_held_at}
use mocko.Callbacks.MemoryRepository.Lifecycle.{Call, step, run}
use mocko.Callbacks.RedisRepository.{Backend, State, find_pending}
use mocko.Callbacks.RedisRepository.Simulation.{redis_step, IsFreshCall, Refines, find_pending-get}
use mocko.Callbacks.RedisRepository.Simulated.{simulates}

module _ {P : Type 0} (b : Backend P) where
  unfoldable pub redis_run : List (Call P) → State b → List (PendingCallback P) × State b
  redis_run [] s = ([], s)
  redis_run (c ∷ cs) s = (
    (redis_step b c s).0 ++ (redis_run cs (redis_step b c s).1).0,
    (redis_run cs (redis_step b c s).1).1,
  )

  abbrev pub IsFreshRun : List (Call P) → Repository P → Type 0
  IsFreshRun [] m = Unit
  IsFreshRun (c ∷ cs) m = IsFreshCall b c m × IsFreshRun cs (step c m).1

  pub redis_run-Refines :
      (cs : List (Call P)) (m : Repository P) (s : State b)
      → Refines b m s
      → IsFreshRun cs m
      → ((p : PendingCallback P) → Elem p (redis_run cs s).0 ↔ Elem p (run cs m).0)
        × Refines b (run cs m).1 (redis_run cs s).1
  unfolding redis_run run
  redis_run-Refines [] m s r h = (λ p. (λ x. x, λ x. x), r)
  redis_run-Refines (c ∷ cs) m s r (fresh, h) =
      let (here, r') = simulates b m s r c fresh in
      let (rest, last) = redis_run-Refines cs (step c m).1 (redis_step b c s).1 r' h in
      (
        λ p.
            let (out, into) =
              Elem-append p (redis_step b c s).0 (redis_run cs (redis_step b c s).1).0 in
            let (out', into') = Elem-append p (step c m).0 (run cs (step c m).1).0 in
            (
              λ e. into' (elim (out e) [ inl x ↦ inl ((here p).0 x) | inr y ↦ inr ((rest p).0 y) ]),
              λ e. into (elim (out' e) [ inl x ↦ inl ((here p).1 x) | inr y ↦ inr ((rest p).1 y) ]),
            ),
        last,
      )

  -- From valid states with the same entries, over the same calls, each with nothing in between its
  -- commands, where what is scheduled is new and not held, Redis hands out the entries that the memory
  -- does, and afterwards both find the same entry under each id.
  pub redis_run_lem :
      (cs : List (Call P)) (m : Repository P) (s : State b)
      → Refines b m s
      → IsFreshRun cs m
      → ((p : PendingCallback P) → Elem p (redis_run cs s).0 ↔ Elem p (run cs m).0)
        × ((k : Text) → find_pending b k (redis_run cs s).1 ≡ MemoryRepository.find k (run cs m).1)
  unfolding MemoryRepository.find
  redis_run_lem cs m s r h =
      let (out, last) = redis_run-Refines cs m s r h in
      (out, λ k. find_pending-get b (run cs m).1 (redis_run cs s).1 last k)
