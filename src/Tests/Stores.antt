-- ===== src/Tests/Stores.antt =====
-- The theorems on the repositories in Redis, at sets and hashes that are lists and a codec that prints
-- an entry as numbers.
use mocko.Base.{
  nat_eq, ℕ, zero, suc, ◌≡◌, refl, inl, ◌↔◌, Text, txt, Option, none, some, List, [], ◌∷◌, ◌++◌,
  length, insert_sorted, arith, Elem, text_eq,
}
use native.Mathlib.Decide.{ℕ_discrete}
use mocko.Base.Dict
use mocko.Redis.Reference
use mocko.Redis.Reference.{list_set, dict_hash}
use mocko.Callbacks.Pending.{PendingCallback}
use mocko.Callbacks.MemoryRepository
use mocko.Callbacks.MemoryRepository.{Repository, is_held}
use mocko.Callbacks.MemoryRepository.Lifecycle.{Call, add, hold_at, run, step}
use mocko.Callbacks.RedisRepository.{
  Backend, State, find_pending, schedule, hold, hold_script, find_member, claim, clear,
}
use mocko.Callbacks.RedisRepository.Stored.{IsValid, Waits}
use mocko.Callbacks.RedisRepository.Races.{AtMostOnce, claim-AtMostOnce}
use mocko.Callbacks.RedisRepository.Arrivals.{clear-Stored}
use mocko.Callbacks.RedisRepository.Simulation.{Refines, redis_step}
use mocko.Callbacks.RedisRepository.Refinement.{
  IsFreshRun, redis_run, redis_run-Refines, redis_run_lem,
}

abbrev cut : ℕ → Text → Text × Text
cut zero cs = ([], cs)
cut (suc n) [] = ([], [])
cut (suc n) (c ∷ cs) = let (xs, ys) = cut n cs in (c ∷ xs, ys)

cut-append : (xs ys : Text) → cut (length xs) (xs ++ ys) ≡ (xs, ys)
cut-append [] ys = refl
cut-append (x ∷ xs) ys = rw (cut-append xs ys) refl

abbrev print_time : Option ℕ → ℕ
print_time none = 0
print_time (some t) = suc t

abbrev read_time : ℕ → Option ℕ
read_time zero = none
read_time (suc t) = some t

read-print_time : (o : Option ℕ) → read_time (print_time o) ≡ o
read-print_time none = refl
read-print_time (some t) = refl

abbrev print_mock : Option Text → Text
print_mock none = []
print_mock (some t) = 1 ∷ t

abbrev read_mock : Text → Option Text
read_mock [] = none
read_mock (_ ∷ t) = some t

read-print_mock : (o : Option Text) → read_mock (print_mock o) ≡ o
read-print_mock none = refl
read-print_mock (some t) = refl

abbrev print_entry : PendingCallback ℕ → Text
print_entry p =
    p.due_at
    ∷ p.created_at
    ∷ p.payload
    ∷ print_time p.held_at
    ∷ length p.id
    ∷ length p.slug
    ∷ (p.id ++ (p.slug ++ print_mock p.triggered_by_mock_id))

abbrev read_entry : Text → PendingCallback ℕ
read_entry (due ∷ created ∷ payload ∷ held ∷ n ∷ m ∷ cs) =
    let (id, rest) = cut n cs in
    let (slug, mock) = cut m rest in
    record {
      id = id;
      slug = slug;
      payload = payload;
      due_at = due;
      created_at = created;
      triggered_by_mock_id = read_mock mock;
      held_at = read_time held;
    }
read_entry _ = record {
  id = [];
  slug = [];
  payload = 0;
  due_at = 0;
  created_at = 0;
  triggered_by_mock_id = none;
  held_at = none;
}

read-print_entry : (p : PendingCallback ℕ) → read_entry (print_entry p) ≡ p
read-print_entry p =
    rw
      (
        cut-append p.id (p.slug ++ print_mock p.triggered_by_mock_id),
        cut-append p.slug (print_mock p.triggered_by_mock_id),
        read-print_mock p.triggered_by_mock_id,
        read-print_time p.held_at,
      )
      refl

abbrev redis : Backend ℕ
redis = record {
  zset = list_set;
  hash = dict_hash;
  stringify = print_entry;
  parse = read_entry;
  parse-stringify = read-print_entry;
}

abbrev entry : Text → ℕ → PendingCallback ℕ
entry id due = record {
  id = id;
  slug = txt "paid";
  payload = 3;
  due_at = due;
  created_at = 1;
  triggered_by_mock_id = none;
  held_at = none;
}

abbrev cleared : State redis
cleared = record { pending = redis.zset.empty; held = redis.hash.empty }

-- Two entries are scheduled and one of them is held.
abbrev stocking : List (Call ℕ)
stocking = add (entry (txt "a") 5) ∷ add (entry (txt "b") 8) ∷ hold_at (txt "b") 4 ∷ []

stocking-IsFreshRun : IsFreshRun redis stocking []
unfolding step MemoryRepository.schedule MemoryRepository.hold Dict.get Dict.set text_eq ℕ_discrete
stocking-IsFreshRun = ((refl, refl), ((refl, refl), (tt, tt)))

cleared-Refines : Refines redis [] cleared
unfolding clear Dict.get list_set dict_hash
cleared-Refines = record {
  memory = record { nodup = tt; keyed = tt };
  redis = (clear-Stored redis cleared).0;
  same = λ k p. (λ st. absurd ((clear-Stored redis cleared).1 k p st), λ e. absurd (ground arith));
}

abbrev stocked : State redis
stocked = (redis_run redis stocking cleared).1

stocked-IsValid : IsValid redis stocked
stocked-IsValid =
    (redis_run-Refines redis stocking [] cleared cleared-Refines stocking-IsFreshRun).1.redis

stocked_first : Waits redis (entry (txt "a") 5) stocked
unfolding redis_run redis_step schedule hold hold_script find_member nat_eq Reference.add
    Reference.rem insert_sorted list_set dict_hash Dict.get Dict.set text_eq ℕ_discrete
stocked_first = inl refl

read_earlier-IsValid : IsValid redis (redis_run redis (add (entry (txt "b") 8) ∷ []) cleared).1
unfolding Dict.get
read_earlier-IsValid =
    (redis_run-Refines redis (add (entry (txt "b") 8) ∷ []) [] cleared cleared-Refines
      ((refl, refl), tt)).1.redis

redis_run_lem_example :
    ((p : PendingCallback ℕ)
      → Elem p (redis_run redis stocking cleared).0 ↔ Elem p (run stocking []).0)
    × ((k : Text) → find_pending redis k stocked ≡ MemoryRepository.find k (run stocking []).1)
redis_run_lem_example = redis_run_lem redis stocking [] cleared cleared-Refines stocking-IsFreshRun

-- Another process held the entry since this one read the set.
claim-AtMostOnce_example :
    AtMostOnce redis
      (txt "b")
      stocked
      (claim redis (txt "b") (redis_run redis (add (entry (txt "b") 8) ∷ []) cleared).1 stocked)
claim-AtMostOnce_example =
    claim-AtMostOnce redis (txt "b") (redis_run redis (add (entry (txt "b") 8) ∷ []) cleared).1
      stocked read_earlier-IsValid stocked-IsValid
