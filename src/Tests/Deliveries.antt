-- ===== src/Tests/Deliveries.antt =====
-- The theorems on mocko-core/src/api/callback/callback-delivery.service.ts, at a callback that goes to a
-- host.
use mocko.Base.{
  ℕ, refl, inr, Text, txt, Option, none, some, [], ◌∷◌, text_eq, nat_eq, to_lower_case,
}
use native.Mathlib.Decide.{ℕ_discrete}
use mocko.Base.Result.{Result, ok}
use mocko.Base.Dict.{Dict}
use mocko.Definitions.Data.{Callback, Host, MockoDefinition, DataBlocks}
use mocko.Callbacks.Pending.{PendingCallback}
use mocko.Callbacks.Service.{assert_triggerable, bad_data}
use mocko.Callbacks.Delivery.{Request, prepare, deliver}
use mocko.Callbacks.Delivery.Outcomes.{Accounts, deliver-Accounts}
use mocko.Callbacks.Delivery.Triggered.{OnlyThrows, prepare-OnlyThrows}

abbrev callback : Callback
callback = record {
  id = none;
  slug = txt "paid";
  name = none;
  source = none;
  file_path = none;
  method = txt "POST";
  host = some (txt "shop");
  path = some (txt "/hook");
  url = none;
  delay = 0;
  headers = (txt "X-Kind", txt "{{kind}}") ∷ [];
  body = some (txt "{{payload}}");
}

abbrev shop : Host
shop = record {
  id = none;
  slug = txt "shop";
  name = none;
  source = txt "shop.local";
  destination = some (txt "http://shop/");
  file_path = none;
}

abbrev definitions : MockoDefinition ℕ
definitions = record {
  mocks = [];
  hosts = shop ∷ [];
  callbacks = callback ∷ [];
  data_blocks = none;
}

abbrev pending : PendingCallback ℕ
pending = record {
  id = txt "1";
  slug = txt "PAID";
  payload = 3;
  due_at = 5;
  created_at = 1;
  triggered_by_mock_id = none;
  held_at = none;
}

-- a renderer that changes nothing, and a client whose requests return 204
abbrev plain : Text → Result ℕ Text
plain template = ok template

abbrev render : PendingCallback ℕ → Option (DataBlocks ℕ) → Text → Result ℕ Text
render p blocks template = ok template

abbrev no_content : Request → Result ℕ ℕ
no_content request = ok 204

abbrev sent_headers : Dict Text Text
sent_headers = (txt "X-Kind", txt "{{kind}}") ∷ (txt "Content-Type", txt "application/json") ∷ []

deliver-Accounts_example :
    Accounts render no_content definitions pending (deliver render no_content definitions pending)
deliver-Accounts_example = deliver-Accounts render no_content definitions pending

prepare-OnlyThrows_example : OnlyThrows (prepare render definitions pending)
unfolding assert_triggerable mocko.Definitions.Hosts.find_callback_by_slug
    mocko.Definitions.Hosts.find_host_by_slug text_eq ℕ_discrete to_lower_case
prepare-OnlyThrows_example =
    prepare-OnlyThrows render definitions pending callback bad_data refl
      (inr (txt "shop", refl, refl)) refl
