-- ===== src/Callbacks/RedisRepository.antt =====
-- mocko-core/src/api/callback/callback.redis-repository.ts, over a sorted set of the entries that wait
-- and a hash of those that are held. A method that awaits between two of its commands takes the state
-- at each: `found_in` is the one at its `findMember`.
pub mod Stored
pub mod Effects
pub mod Arrivals
pub mod Holds
pub mod Due
pub mod Listing
pub mod Races
pub mod Simulation
pub mod Simulated
pub mod Refinement
use mocko.Base.{
  ℕ, ◌≡◌, Text, Bool, true, false, Option, none, some, List, [], ◌∷◌, ◌++◌, map, find, sort, ltb,
  ◌==◌, text_eq, nat_eq, if◌then◌else◌,
}
use mocko.Base.Dict
use mocko.Redis.{SortedSet, Hash}
use mocko.Callbacks.Pending.{PendingCallback}
use mocko.Callbacks.MemoryRepository.{due_order, with_held_at}

-- Redis, and JSON on entries: what is printed is read back.
pub record Backend (P : Type 0) : Type 1 where
  pub zset : SortedSet
  pub hash : Hash
  pub stringify : PendingCallback P → Text
  pub parse : Text → PendingCallback P
  pub parse-stringify : (p : PendingCallback P) → parse (stringify p) ≡ p

module _ {P : Type 0} (b : Backend P) where
  -- PENDING_KEY and HELD_KEY
  pub record State : Type 0 where
    pub pending : b.zset.State
    pub held : b.hash.State

  unfoldable pub schedule : PendingCallback P → State → State
  schedule p s = record s { pending = b.zset.add p.due_at (b.stringify p) s.pending }

  -- `findMember`
  unfoldable pub find_member : Text → State → Option Text
  find_member id s = elim (find (λ entry. (b.parse entry.0).id == id) (b.zset.range s.pending)) [
    | none ↦ none
    | some entry ↦ some entry.0
  ]

  unfoldable pub list : State → List (PendingCallback P)
  list s = sort due_order (
      map (λ entry. b.parse entry.0) (b.zset.range s.pending)
      ++ map (λ entry. b.parse entry.1) (b.hash.all s.held))

  abbrev pub parse_some : Option Text → Option (PendingCallback P)
  parse_some none = none
  parse_some (some member) = some (b.parse member)

  unfoldable pub find_pending : Text → State → Option (PendingCallback P)
  unfolding find_member
  find_pending id s =
      parse_some
        (elim (find_member id s) [ some member ↦ some member | none ↦ b.hash.get id s.held ])

  -- ZREM of several members
  pub rem_all : List Text → b.zset.State → b.zset.State
  rem_all [] z = z
  rem_all (member ∷ members) z = rem_all members (b.zset.rem member z).1

  -- CLAIM_DUE_SCRIPT
  unfoldable pub claim_due_script : ℕ → State → List Text × State
  unfolding rem_all
  claim_due_script now s =
      let members : List Text = b.zset.range_by_score now s.pending in
      (members, record s { pending = rem_all members s.pending })

  unfoldable pub claim_due : ℕ → State → List (PendingCallback P) × State
  unfolding claim_due_script
  claim_due now s = (map b.parse (claim_due_script now s).0, (claim_due_script now s).1)

  -- CLAIM_HELD_SCRIPT
  unfoldable pub claim_held_script : Text → State → Option Text × State
  claim_held_script id s = elim (b.hash.get id s.held) [
    | none ↦ (none, s)
    | some member ↦ (some member, record s { held = (b.hash.del id s.held).1 })
  ]

  abbrev parsed : Option Text × State → Option (PendingCallback P) × State
  parsed (member, s) = (parse_some member, s)

  unfoldable pub claim : Text → (found_in s : State) → Option (PendingCallback P) × State
  unfolding find_member claim_held_script
  claim id found_in s = elim (find_member id found_in) [
    | none ↦ parsed (claim_held_script id s)
    | some member ↦
        let (removed, left) = b.zset.rem member s.pending in
        if ltb 0 removed
        then (some (b.parse member), record s { pending = left })
        else parsed (claim_held_script id (record s { pending = left }))
  ]

  -- HOLD_SCRIPT
  unfoldable pub hold_script : Text → Text → Text → State → ℕ × State
  hold_script member id value s =
      let (removed, left) = b.zset.rem member s.pending in
      if removed == 0
      then (0, record s { pending = left })
      else (1, record { pending = left; held = b.hash.set id value s.held })

  unfoldable pub hold : Text → ℕ → (found_in s : State) → Option (PendingCallback P) × State
  unfolding find_member hold_script
  hold id held_at found_in s = elim (find_member id found_in) [
    | none ↦ (none, s)
    | some member ↦
        let held : PendingCallback P = with_held_at (b.parse member) held_at in
        let (moved, s') = hold_script member id (b.stringify held) s in
        (if moved == 1 then some held else none, s')
  ]

  unfoldable pub cancel : Text → (found_in s : State) → Bool × State
  unfolding find_member
  cancel id found_in s =
      let (deleted, left) = b.hash.del id s.held in
      let only_held : Bool × State = (ltb 0 deleted, record s { held = left }) in
      elim (find_member id found_in) [
        | none ↦ only_held
        | some member ↦
            let (removed, rest) = b.zset.rem member s.pending in
            if ltb 0 removed
            then (true, record s { pending = rest })
            else (ltb 0 deleted, record { pending = rest; held = left })
      ]

  unfoldable pub clear : State → State
  clear s = record { pending = b.zset.empty; held = b.hash.empty }

  unfoldable pub next_due_at : State → Option ℕ
  next_due_at s = elim (b.zset.range s.pending) [ [] ↦ none | entry ∷ entries ↦ some entry.1 ]
