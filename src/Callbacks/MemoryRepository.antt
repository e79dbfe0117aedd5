-- ===== src/Callbacks/MemoryRepository.antt =====
-- mocko-core/src/api/callback/callback.memory-repository.ts, over the map from ids to entries. Each
-- method returns its result beside the new map.
pub mod Valid
pub mod Claims
pub mod Next
pub mod Lifecycle
use mocko.Base.{
  ℕ, Text, Bool, true, false, not, ◌&&◌, Option, none, some, List, [], ◌∷◌, is_some, ltb, leb,
  if◌then◌else◌, filter, sort, text_eq,
}
use mocko.Base.Dict
use mocko.Base.Dict.{Dict}
use mocko.Callbacks.Pending.{PendingCallback}

abbrev pub Repository : Type 0 → Type 0
Repository P = Dict Text (PendingCallback P)

module _ {P : Type 0} where
  abbrev pub is_held : PendingCallback P → Bool
  is_held p = is_some p.held_at

  -- `a.dueAt - b.dueAt` as a sort order
  abbrev pub due_order : PendingCallback P → PendingCallback P → Bool
  due_order a b = leb a.due_at b.due_at

  abbrev pub is_due : ℕ → PendingCallback P → Bool
  is_due now p = not (is_held p) && leb p.due_at now

  unfoldable pub schedule : PendingCallback P → Repository P → Repository P
  schedule pending s = Dict.set pending.id pending s

  unfoldable pub list : Repository P → List (PendingCallback P)
  list s = sort due_order (Dict.values s)

  unfoldable pub find : Text → Repository P → Option (PendingCallback P)
  find id s = Dict.get id s

  -- `due.forEach((pending) => this.pending.delete(pending.id))`
  pub delete_all : List (PendingCallback P) → Repository P → Repository P
  delete_all [] s = s
  delete_all (p ∷ ps) s = delete_all ps (Dict.delete p.id s)

  unfoldable pub claim_due : ℕ → Repository P → List (PendingCallback P) × Repository P
  unfolding list delete_all
  claim_due now s = let due = filter (is_due now) (list s) in (due, delete_all due s)

  unfoldable pub claim : Text → Repository P → Option (PendingCallback P) × Repository P
  claim id s = elim (Dict.get id s) [
    | none ↦ (none, s)
    | some pending ↦ (some pending, Dict.delete id s)
  ]

  -- `{ ...pending, heldAt }`
  abbrev pub with_held_at : PendingCallback P → ℕ → PendingCallback P
  with_held_at pending held_at = record pending { held_at = some held_at }

  unfoldable pub hold : Text → ℕ → Repository P → Option (PendingCallback P) × Repository P
  hold id held_at s = elim (Dict.get id s) [
    | none ↦ (none, s)
    | some pending ↦
        if is_held pending
        then (none, s)
        else (some (with_held_at pending held_at), Dict.set id (with_held_at pending held_at) s)
  ]

  -- `map.delete` says whether the key was there
  unfoldable pub cancel : Text → Repository P → Bool × Repository P
  cancel id s = (is_some (Dict.get id s), Dict.delete id s)

  unfoldable pub clear : Repository P → Repository P
  clear s = []

  -- one round of the loop of `nextDueAt`, and the loop
  pub earlier : Option ℕ → PendingCallback P → Option ℕ
  earlier next p = if is_held p then next else elim next [
    | none ↦ some p.due_at
    | some t ↦ if ltb p.due_at t then some p.due_at else some t
  ]

  pub next_from : Option ℕ → List (PendingCallback P) → Option ℕ
  next_from next [] = next
  next_from next (p ∷ ps) = next_from (earlier next p) ps

  unfoldable pub next_due_at : Repository P → Option ℕ
  unfolding next_from earlier
  next_due_at s = next_from none (Dict.values s)
