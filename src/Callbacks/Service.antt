-- ===== src/Callbacks/Service.antt =====
-- mocko-core/src/api/callback/callback.service.ts. Where a method awaits between two calls of the
-- repository, it takes the repository at each of them.
pub mod Errors
use mocko.Base.{
  ℕ, Text, is_empty, Bool, true, false, Option, none, some, List, is_some, if◌then◌else◌,
}
use mocko.Base.Result.{Result, ok, err, ◌>>=◌, ◌>>◌}
use mocko.Definitions.Data.{Host, Callback, MockoDefinition}
use mocko.Definitions.Hosts.{find_host_by_slug, find_callback_by_slug}
use mocko.Callbacks.Pending.{PendingCallback}
use mocko.Callbacks.MemoryRepository
use mocko.Callbacks.MemoryRepository.{Repository}
use mocko.Callbacks.Scheduler
use mocko.Callbacks.Scheduler.{Scheduler}

-- Boom's errors: 404, 422 and 409.
pub data Boom : Type 0 where
  not_found bad_data conflict : Boom

-- `!host?.destination`
abbrev pub lacks_destination : Option Host → Bool
lacks_destination none = true
lacks_destination (some host) = elim host.destination [ none ↦ true | some d ↦ is_empty d ]

module _ {A : Type 0} (definitions : MockoDefinition A) where
  -- the check of the host that a callback names; a url callback names none
  unfoldable pub assert_host : Option Text → Result Boom (Unit {0})
  assert_host none = ok tt
  assert_host (some name) =
      if is_empty name
      then ok tt
      else if lacks_destination (find_host_by_slug definitions.hosts name)
      then err bad_data
      else ok tt

  unfoldable pub assert_triggerable : Text → Boom → Result Boom (Unit {0})
  unfolding assert_host
  assert_triggerable slug missing_definition_error =
      elim (find_callback_by_slug definitions.callbacks slug) [
        | none ↦ err missing_definition_error
        | some definition ↦ assert_host definition.host
      ]

  module _ {P : Type 0} where
    -- `fire`; `id` and `now` are the scheduler's
    unfoldable pub fire :
        Text → P → ℕ → (id : Text) (now : ℕ) → Scheduler P → Result Boom (Scheduler P)
    unfolding assert_triggerable
    fire slug payload delay id now s = do
      assert_triggerable slug not_found
      ok (
          Scheduler.schedule
            (record { slug = slug; payload = payload; delay = delay; triggered_by_mock_id = none })
            id now s)

    -- what `firePending` does with what it claimed: the entry is delivered
    pub delivered_or_missing :
        Option (PendingCallback P) × Repository P → Result Boom (PendingCallback P) × Repository P
    delivered_or_missing (none, r) = (err not_found, r)
    delivered_or_missing (some claimed, r) = (ok claimed, r)

    pub claim_if :
        Result Boom (Unit {0})
        → Text
        → Repository P
        → Result Boom (PendingCallback P) × Repository P
    unfolding delivered_or_missing
    claim_if (err e) id r = (err e, r)
    claim_if (ok _) id r = delivered_or_missing (MemoryRepository.claim id r)

    -- `found_in` is the repository at `find`, `r` the one at `claim`
    unfoldable pub fire_pending :
        Text → (found_in r : Repository P) → Result Boom (PendingCallback P) × Repository P
    unfolding claim_if assert_triggerable
    fire_pending id found_in r = elim (MemoryRepository.find id found_in) [
      | none ↦ (err not_found, r)
      | some pending ↦ claim_if (assert_triggerable pending.slug bad_data) id r
    ]

module _ {P : Type 0} where
  -- the answer when nothing was held, from the entry that `find` sees then
  abbrev hold_failure : Option (PendingCallback P) → Boom
  hold_failure none = not_found
  hold_failure (some existing) = if is_some existing.held_at then conflict else not_found

  -- `later` is the repository at `find`, after a hold that failed
  unfoldable pub hold_pending :
      Text → ℕ → (r later : Repository P) → Result Boom (PendingCallback P) × Repository P
  hold_pending id now r later = elim (MemoryRepository.hold id now r).0 [
    | some held ↦ (ok held, (MemoryRepository.hold id now r).1)
    | none ↦ (err (hold_failure (MemoryRepository.find id later)), later)
  ]

  unfoldable pub cancel_pending : Text → Repository P → Result Boom (Unit {0}) × Repository P
  cancel_pending id r =
      let (cancelled, left) = MemoryRepository.cancel id r in
      (if cancelled then ok tt else err not_found, left)
