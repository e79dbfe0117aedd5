-- ===== src/Callbacks/Trigger/Accepted.antt =====
-- What the helper queues is let through when it is triggered.
use mocko.Base.{
  ℕ, ◌≡◌, refl, ap, Text, Bool, true, false, Option, none, some, [], ◌∷◌, ◌++◌, arith, text_eq,
  Option-cases, inl, inr,
}
use mocko.Base.Result.{ok, Result-cases}
use mocko.Definitions.Data.{Callback, MockoDefinition}
use mocko.Definitions.Hosts.{find_callback_by_slug}
use mocko.Response.{ResponseData}
use mocko.Callbacks.Service.{Boom, assert_host, assert_triggerable}
use mocko.Callbacks.Trigger.{
  SlugArgument, text, no_text, Number, whole, negative, DelayArgument, missing, written, number,
  no_number, delay_of, resolve_delay, assert_serializable, callback,
}

-- The delay, in whole milliseconds: that of the helper where it is given, as a number or a text of one,
-- and else that of the definition.
abbrev pub IsDelay : (Text → Option Number) → DelayArgument → (stanza_delay due : ℕ) → Type 0
IsDelay parse_int missing stanza_delay due = due ≡ stanza_delay
IsDelay parse_int (written t) stanza_delay due = parse_int t ≡ some (whole due)
IsDelay parse_int (number n) stanza_delay due = n ≡ some (whole due)
IsDelay parse_int no_number stanza_delay due = true ≡ false

delay_of-ok : (n : Option Number) (due : ℕ) → delay_of n ≡ ok due → n ≡ some (whole due)
delay_of-ok (some (whole k)) due h = let same : k ≡ due = cc in ap (λ v. some (whole v)) same
delay_of-ok (some negative) due h = cc
delay_of-ok none due h = cc

resolve_delay-IsDelay :
    (parse_int : Text → Option Number) (delay : DelayArgument) (stanza_delay due : ℕ)
    → resolve_delay parse_int delay stanza_delay ≡ ok due
    → IsDelay parse_int delay stanza_delay due
unfolding resolve_delay
resolve_delay-IsDelay parse_int missing stanza_delay due h = cc
resolve_delay-IsDelay parse_int (written t) stanza_delay due h = delay_of-ok (parse_int t) due h
resolve_delay-IsDelay parse_int (number n) stanza_delay due h = delay_of-ok n due h
resolve_delay-IsDelay parse_int no_number stanza_delay due h = cc

module _ {P A : Type 0} (serializable : P → Bool) (parse_int : Text → Option Number)
    (definitions : MockoDefinition A) where
  -- If the helper does not throw, it queues one callback and leaves all else of the response as it was:
  -- of the slug and the payload that it was given, a payload that can be serialized, and with the delay
  -- that it was given, as a number or a text of one, or else that of the definition of the slug. And with the same definitions, the check of
  -- callback.service.ts lets it be triggered.
  pub callback-IsTriggerable :
      (slug : SlugArgument) (payload : P) (delay : DelayArgument) (s t : ResponseData P)
      (missing_error : Boom)
      → callback serializable parse_int definitions slug payload delay s ≡ ok t
      → (name : Text) × ((definition : Callback) × ((due : ℕ) × (((slug ≡ text name)
                × (serializable payload ≡ true))
              × (((find_callback_by_slug definitions.callbacks name ≡ some definition)
                    × IsDelay parse_int delay definition.delay due)
                  × ((t ≡ record s {
                    callbacks =
                        s.callbacks ++ record { slug = name; payload = payload; delay = due } ∷ [];
                  })
                      × (assert_triggerable definitions name missing_error ≡ ok tt))))))
  unfolding callback assert_triggerable assert_host assert_serializable
  callback-IsTriggerable no_text payload delay s t e h = cc
  callback-IsTriggerable (text name) payload delay s t e h =
      elim (Option-cases (find_callback_by_slug definitions.callbacks name)) [
        | inl n ↦ absurd (ground arith)
        | inr (definition, there) ↦
            elim (Result-cases (resolve_delay parse_int delay definition.delay)) [
              | inl (failure, thrown) ↦ absurd (ground arith)
              | inr (due, delayed) ↦ (
                name,
                (
                  definition,
                  (
                    due,
                    (
                      (refl, ground arith),
                      (
                        (there, resolve_delay-IsDelay parse_int delay definition.delay due delayed),
                        (ground arith, ground arith),
                      ),
                    ),
                  ),
                ),
              )
            ]
      ]
