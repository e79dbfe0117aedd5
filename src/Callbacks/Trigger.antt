-- ===== src/Callbacks/Trigger.antt =====
-- mocko-core/src/helpers/callback.ts: the template helper that queues a callback for when the mock has
-- answered. The definitions are those that the provider gives at the call; whether a payload can be
-- serialized, and `parseInt`, are arguments. Numbers are whole, or below zero.
pub mod Accepted
use mocko.Base.{
  ℕ, Text, Bool, true, false, not, Option, none, some, List, [], ◌∷◌, ◌++◌, is_empty, if◌then◌else◌,
}
use mocko.Base.Result.{Result, ok, err, ◌>>=◌, ◌>>◌}
use mocko.Definitions.Data.{Callback, MockoDefinition}
use mocko.Definitions.Hosts.{find_host_by_slug, find_callback_by_slug}
use mocko.Response.{ResponseData, CallbackTrigger}
use mocko.Callbacks.Service.{lacks_destination}

-- what a template gives for the slug
pub data SlugArgument : Type 0 where
  text : Text → SlugArgument
  no_text : SlugArgument

pub data Number : Type 0 where
  whole : ℕ → Number
  negative : Number

-- what it gives for `delay`; `NaN` is no value
pub data DelayArgument : Type 0 where
  missing : DelayArgument
  written : Text → DelayArgument
  number : Option Number → DelayArgument
  no_number : DelayArgument

pub data TriggerError : Type 0 where
  slug_not_text : TriggerError
  no_callback : Text → TriggerError
  host_without_destination : (slug host : Text) → TriggerError
  not_serializable : Text → TriggerError
  delay_not_number : TriggerError

abbrev pub delay_of : Option Number → Result TriggerError ℕ
delay_of (some (whole n)) = ok n
delay_of (some negative) = err delay_not_number
delay_of none = err delay_not_number

unfoldable pub resolve_delay :
    (Text → Option Number) → DelayArgument → (stanza_delay : ℕ) → Result TriggerError ℕ
resolve_delay parse_int missing stanza_delay = ok stanza_delay
resolve_delay parse_int (written t) stanza_delay = delay_of (parse_int t)
resolve_delay parse_int (number n) stanza_delay = delay_of n
resolve_delay parse_int no_number stanza_delay = err delay_not_number

module _ {P A : Type 0} (serializable : P → Bool) (parse_int : Text → Option Number)
    (definitions : MockoDefinition A) where
  -- `if(definition.host)`
  abbrev pub assert_destination : Text → Option Text → Result TriggerError (Unit {0})
  assert_destination slug none = ok tt
  assert_destination slug (some host) =
      if is_empty host
      then ok tt
      else if lacks_destination (find_host_by_slug definitions.hosts host)
      then err (host_without_destination slug host)
      else ok tt

  unfoldable pub assert_serializable : Text → P → Result TriggerError (Unit {0})
  assert_serializable slug payload =
      if serializable payload then ok tt else err (not_serializable slug)

  abbrev pub queued :
      Text → P → DelayArgument → ResponseData P → Callback → Result TriggerError (ResponseData P)
  unfolding assert_serializable resolve_delay
  queued slug payload delay s definition = do
    assert_destination slug definition.host
    assert_serializable slug payload
    due ← resolve_delay parse_int delay definition.delay
    ok (record s {
      callbacks = s.callbacks ++ record { slug = slug; payload = payload; delay = due } ∷ [];
    })

  abbrev pub found_or_missing :
      Text
      → P
      → DelayArgument
      → ResponseData P
      → Option Callback
      → Result TriggerError (ResponseData P)
  unfolding assert_serializable resolve_delay
  found_or_missing slug payload delay s none = err (no_callback slug)
  found_or_missing slug payload delay s (some definition) = queued slug payload delay s definition

  unfoldable pub callback :
      SlugArgument → P → DelayArgument → ResponseData P → Result TriggerError (ResponseData P)
  unfolding assert_serializable resolve_delay
  callback no_text payload delay s = err slug_not_text
  callback (text slug) payload delay s =
      if is_empty slug
      then err slug_not_text
      else found_or_missing slug payload delay s (find_callback_by_slug definitions.callbacks slug)
