-- ===== src/Tests/Working.antt =====
-- The theorems on the background calls of the panel, on the helper for callbacks, and on the client of
-- the SDK at the core, at one operation, one callback and one flag.
use native.Mathlib.Decide.{ℕ_discrete}
use mocko.Base.{
  ℕ, ◌+◌, ◌*◌, ◌≡◌, refl, Text, txt, true, false, Option, none, some, [], ◌∷◌, arith, text_eq,
  nat_eq, if◌then◌else◌, ltb, insert_sorted, trim, starts_with, ends_with, includes, to_lower_case,
}
use mocko.Base.Result.{ok, err}
use mocko.Control.Operations.{
  Operation, StoreConfig, Management, executing, ready, scanning, stale_flags, stale_flags_input,
  execute, bad_request, create_operation, transition_to_executing,
}
use mocko.Control.Operations.Jobs.{
  Step, created, started, scanned, here, next, finish_scan, without,
}
use mocko.Control.Operations.Orderly.{IsOrderly, Forward}
use mocko.Control.Operations.Forward.{Step-Forward}
use mocko.Control.Operations.Overlap.{check_executing, commit_executing, overlap-Twice}
use mocko.Definitions.Data.{Callback, MockoDefinition}
use mocko.Definitions.Hosts.{find_callback_by_slug}
use mocko.Response.{ResponseData}
use mocko.Callbacks.Service.{not_found, assert_triggerable}
use mocko.Callbacks.Trigger.{Number, whole, text, written, callback}
use mocko.Callbacks.Trigger.Accepted.{IsDelay, callback-IsTriggerable}
use mocko.Deploy.{Config, all_auth, authorize, authorize_flags}
use mocko.Flags.Keys.{assert_valid_key}
use mocko.Flags.MemoryRepository.{Flags}
use mocko.Sdk.Transport
use mocko.Sdk.Transport.Serve.{serve}
use mocko.Sdk.Transport.RoundTrip.{get_flag-set_flag}

abbrev config : StoreConfig
config = record {
  is_management_supported = true;
  v1_migration_enabled = true;
  redis_prefix = txt "mocko:v2:";
}

abbrev operation : Operation
operation = record {
  id = txt "o";
  type_data = stale_flags 60;
  status = scanning;
  created_at = 1;
  completed_at = none;
}

abbrev empty : Management
empty = record { operations = []; jobs = [] }

abbrev scanning_one : Management
scanning_one = (create_operation config (txt "o") 1 (stale_flags_input 60) empty).1

abbrev ready_one : Management
ready_one = finish_scan (txt "o") (without [] [] scanning_one)

first : Step config empty scanning_one
unfolding create_operation
first =
    created (txt "o") 1 (stale_flags_input 60) operation ((λ x m. elim m [ ]), (λ x m. elim m [ ]))
      refl

second : Step config scanning_one ready_one
unfolding create_operation
second = scanned operation [] [] refl

abbrev executing_one : Management
executing_one = (transition_to_executing config (txt "o") false ready_one).1

third : Step config ready_one executing_one
unfolding transition_to_executing finish_scan create_operation text_eq insert_sorted ℕ_discrete
third = started (txt "o") false (record operation { status = executing }) refl

Step-Forward_example : IsOrderly ready_one × Forward ready_one executing_one
Step-Forward_example = Step-Forward config (next (next here first) second) third

abbrev ready_operation : Operation
ready_operation = record operation { status = ready }

abbrev one_ready : Management
one_ready = record { operations = ready_operation ∷ []; jobs = [] }

overlap-Twice_example :
    ((transition_to_executing config (txt "o") false one_ready).1
      ≡ commit_executing config (txt "o") ready_operation one_ready)
    × ((check_executing config
            (txt "o")
            false
            (commit_executing config (txt "o") ready_operation one_ready)
          ≡ err bad_request)
        × ((commit_executing config
              (txt "o")
              ready_operation
              (commit_executing config (txt "o") ready_operation one_ready)).jobs
            ≡ execute ready_operation ∷ execute ready_operation ∷ []))
unfolding check_executing text_eq ℕ_discrete
overlap-Twice_example = overlap-Twice config (txt "o") false ready_operation one_ready refl

abbrev paid : Callback
paid = record {
  id = none;
  slug = txt "paid";
  name = none;
  source = none;
  file_path = none;
  method = txt "POST";
  host = none;
  path = none;
  url = some (txt "http://shop/paid");
  delay = 0;
  headers = [];
  body = none;
}

abbrev definitions : MockoDefinition ℕ
definitions = record { mocks = []; hosts = []; callbacks = paid ∷ []; data_blocks = none }

abbrev response : ResponseData ℕ
response = record {
  status = 200;
  response_headers = [];
  callbacks = [];
  proxy_to = none;
  proxy_label = none;
}

abbrev parse_int : Text → Option Number
parse_int t = some (whole 5)

abbrev queued : ResponseData ℕ
queued = record response { callbacks = record { slug = txt "paid"; payload = 7; delay = 5 } ∷ [] }

callback-IsTriggerable_example :
    (name : Text) × ((definition : Callback) × ((due : ℕ) × (((text (txt "paid") ≡ text name)
            × (true ≡ true))
          × (((find_callback_by_slug definitions.callbacks name ≡ some definition)
                × IsDelay parse_int (written (txt "5")) definition.delay due)
              × ((queued ≡ record response {
                callbacks = record { slug = name; payload = 7; delay = due } ∷ [];
              })
                  × (assert_triggerable definitions name not_found ≡ ok tt))))))
unfolding callback text_eq find_callback_by_slug to_lower_case ℕ_discrete
callback-IsTriggerable_example =
    callback-IsTriggerable (λ (p : ℕ). true) parse_int definitions (text (txt "paid")) 7
      (written (txt "5")) response queued not_found refl

abbrev secured : Config
secured = record { endpoint_enabled = none; secret = some (txt "s"); mode = all_auth }

abbrev send : ℕ → Transport.Request → Flags Text → Transport.HttpResponse (Option Text) × Flags Text
send now = serve some some some secured (txt "http://core/") now

get_flag-set_flag_example :
    let r =
      Transport.set_flag
        (send 10)
        (λ j. j)
        some
        some
        (λ t. t)
        (txt "http://core/")
        (some (txt "s"))
        (txt "user:1")
        (txt "on")
        2
        [] in
    (r.0 ≡ ok tt)
    × ((Transport.get_flag
          (send 11)
          (λ j. j)
          some
          some
          (λ t. t)
          (txt "http://core/")
          (some (txt "s"))
          (txt "user:1")
          r.1).0
        ≡ ok (if ltb 11 (10 + 2 * 1000) then some (txt "on") else none))
unfolding assert_valid_key trim starts_with ends_with includes authorize_flags authorize
    Transport.authorization_of
get_flag-set_flag_example =
    get_flag-set_flag some some some secured (txt "http://core/") (λ t. t) (some (txt "s"))
      (txt "user:1") (txt "on") (txt "on") refl refl refl refl refl refl refl 10 11 2 []
      (omega arith) (omega arith)
