-- ===== src/Callbacks/Service/Errors.antt =====
-- The answers of the service.
use mocko.Base.{
  ℕ, ◌≡◌, ◌↔◌, refl, sym, subst, ◌∙◌, ◌==◌, if◌then◌else◌, ◌⊎◌, inl, inr, Text, Option, none, some,
  arith, text_eq, Option-cases,
}
use mocko.Base.Dict
use mocko.Base.Dict.{get-delete}
use mocko.Base.Result.{Result, ok, err}
use mocko.Definitions.Data.{MockoDefinition}
use mocko.Callbacks.Pending.{PendingCallback}
use mocko.Callbacks.MemoryRepository
use mocko.Callbacks.MemoryRepository.{Repository, is_held, with_held_at}
use mocko.Callbacks.Service.{
  Boom, not_found, bad_data, conflict, assert_triggerable, claim_if, fire_pending, hold_pending,
  cancel_pending,
}

module _ {A P : Type 0} (definitions : MockoDefinition A) (id : Text) (r : Repository P) where
  -- The entry under the id is delivered and gone, or the repository is as it was.
  abbrev pub AllOrNothing : Result Boom (PendingCallback P) × Repository P → Type 0
  AllOrNothing outcome =
      ((p : PendingCallback P) × (outcome.0 ≡ ok p)
        × (Dict.get id r ≡ some p)
        × (outcome.1 ≡ Dict.delete id r))
      ⊎ ((e : Boom) × (outcome.0 ≡ err e) × (outcome.1 ≡ r))

  claim_if-AllOrNothing :
      (check : Result Boom (Unit {0})) → AllOrNothing (claim_if definitions check id r)
  unfolding claim_if MemoryRepository.claim
  claim_if-AllOrNothing (err e) = inr (e, refl, refl)
  claim_if-AllOrNothing (ok _) = elim (Option-cases (Dict.get id r)) [
    | inl gone ↦ inr (not_found, ground arith, ground arith)
    | inr (p, there) ↦ inl (p, ground arith, there, ground arith)
  ]

  module _ (found_in : Repository P) where
    fire_pending-eq :
        (q : PendingCallback P)
        → Dict.get id found_in ≡ some q
        → fire_pending definitions id found_in r
          ≡ claim_if definitions (assert_triggerable definitions q.slug bad_data) id r
    unfolding fire_pending MemoryRepository.find
    fire_pending-eq q there = ground arith

    -- If `firePending` succeeds, what it delivers is the entry stored under the id, which is then
    -- gone; if it fails, the repository is as it was. `found_in` is the repository at its `find`, `r`
    -- the one at its `claim`.
    pub fire_pending-AllOrNothing : AllOrNothing (fire_pending definitions id found_in r)
    fire_pending-AllOrNothing = elim (Option-cases (Dict.get id found_in)) [
      | inl gone ↦
          unfold fire_pending MemoryRepository.find in inr (not_found, ground arith, ground arith)
      | inr (q, there) ↦
          subst AllOrNothing (sym (fire_pending-eq q there))
            (claim_if-AllOrNothing (assert_triggerable definitions q.slug bad_data))
    ]

    -- An entry that cannot be delivered, because its definition is gone or the host of that has no
    -- destination, is not claimed: `firePending` answers with the error of the check.
    pub fire_pending-refused :
        (p : PendingCallback P) (e : Boom)
        → Dict.get id found_in ≡ some p
        → assert_triggerable definitions p.slug bad_data ≡ err e
        → fire_pending definitions id found_in r ≡ (err e, r)
    unfolding claim_if
    fire_pending-refused p e there refused = fire_pending-eq p there ∙ rw (refused, claim_if)

-- The answers of `holdPending` for an entry that is missing, held already, or neither.
abbrev pub hold_answer :
    {P : Type 0}
    → Text
    → ℕ
    → Repository P
    → Option (PendingCallback P)
    → Result Boom (PendingCallback P) × Repository P
hold_answer id now r none = (err not_found, r)
hold_answer id now r (some p) =
    if is_held p
    then (err conflict, r)
    else (ok (with_held_at p now), Dict.set id (with_held_at p now) r)

-- With nothing in between, `holdPending` answers 404 for an id that is not stored and 409 for an
-- entry that is held, and changes nothing then; any other entry it holds, stores and returns.
pub hold_pending-eq :
    {P : Type 0} (id : Text) (now : ℕ) (r : Repository P)
    → hold_pending id now r r ≡ hold_answer id now r (Dict.get id r)
unfolding hold_pending MemoryRepository.hold MemoryRepository.find
hold_pending-eq id now r = ground arith

-- After `cancelPending`, which answers 404 exactly if the id was not stored, the id is not stored and
-- every other entry is as it was.
pub cancel_pending_lem :
    {P : Type 0} (id other : Text) (r : Repository P)
    → (((cancel_pending id r).0 ≡ err not_found) ↔ (Dict.get id r ≡ none))
      × (Dict.get other (cancel_pending id r).1 ≡ (if other == id then none else Dict.get other r))
unfolding cancel_pending MemoryRepository.cancel
cancel_pending_lem id other r = (ground arith, ground (arith, get-delete other id r))
