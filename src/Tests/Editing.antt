-- ===== src/Tests/Editing.antt =====
-- The theorems on the mocks and the callbacks of the panel, at a store with one of each.
use mocko.Base.{
  ℕ, ◌≡◌, refl, Text, txt, Bool, true, Option, none, some, List, [], ◌∷◌, contains, All, Elem,
  text_eq, nat_eq, inl, if◌then◌else◌,
}
use native.Mathlib.Decide.{ℕ_discrete}
use mocko.Base.Dict.{Dict}
use mocko.Control.Store.Redis.{redis_store}
use mocko.Control.Hosts.{unset}
use mocko.Control.Slugs.{find_by_slug_preferring_ui}
use mocko.Control.Mocks
use mocko.Control.Mocks.{
  MockAnnotation, temporary, read_only, Mock, MockResponse, PatchMockInput, mock_id,
}
use mocko.Control.V1Mocks.{V1Mock, migrate_v1_mocks}
use mocko.Control.Mocks.Sound as MocksSound
use mocko.Control.Mocks.Sound.{handle_mocks-IsSound}
use mocko.Control.Templates.{field_template_error}
use mocko.Control.Callbacks
use mocko.Control.Callbacks.{
  Callback, PatchCallbackInput, callback_id, callback_slug, is_ui, list_callbacks, fire,
}
use mocko.Control.Callbacks.Sound as CallbacksSound
use mocko.Control.Callbacks.Sound.{handle_callbacks-Settled}
use mocko.Control.Callbacks.Firing.{fire-StandsFor}

-- a parser that takes every text without a '{'
abbrev parse : Text → Option (Text × ℕ)
parse body = if contains body 123 then some (txt "unclosed", 0) else none

abbrev own_mock : Mock
own_mock = record {
  id = txt "1";
  name = txt "first";
  method = txt "GET";
  path = txt "/a";
  host = none;
  file_path = none;
  format = none;
  response = record { code = 200; delay = none; body = some (txt "hi"); headers = [] };
  is_enabled = true;
  labels = [];
  annotations = temporary ∷ [];
}

abbrev broken : PatchMockInput
broken = record {
  name = none;
  method = none;
  path = none;
  host = unset;
  format = none;
  labels = none;
  response = some (record { code = 200; delay = none; body = some (txt "{"); headers = [] });
  is_enabled = none;
}

abbrev no_file : Text → Option Mock
no_file id = none

abbrev mocks : Mocks.Panel parse (redis_store mock_id) [] no_file
unfolding redis_store
mocks = record { own = own_mock ∷ []; deployed = []; failures = []; gets_through = true }

own_mock-IsSound : MocksSound.IsSound parse own_mock
unfolding mocko.Control.Templates.template_error Mocks.format_conflicts nat_eq ℕ_discrete
own_mock-IsSound = record { template = inl refl; format = inl refl }

mocks-IsConsistent : MocksSound.IsConsistent parse (redis_store mock_id) [] no_file mocks
unfolding redis_store
mocks-IsConsistent = record { valid = tt; sound = (own_mock-IsSound, tt) }

handle_mocks-IsSound_example :
    (MocksSound.IsConsistent parse (redis_store mock_id) [] no_file (
        MocksSound.handle parse
          (redis_store mock_id)
          []
          no_file
          (MocksSound.update (txt "1") broken)
          mocks)
      × MocksSound.Settled parse
          (redis_store mock_id)
          []
          no_file
          (MocksSound.refusal parse
            (redis_store mock_id)
            []
            no_file
            (MocksSound.update (txt "1") broken)
            mocks)
          mocks
          (MocksSound.handle parse
            (redis_store mock_id)
            []
            no_file
            (MocksSound.update (txt "1") broken)
            mocks))
    × ((entries : Dict Text V1Mock)
        → All (MocksSound.IsSound parse) (migrate_v1_mocks parse entries).0)
handle_mocks-IsSound_example =
    handle_mocks-IsSound parse (redis_store mock_id) [] no_file (MocksSound.update (txt "1") broken)
      mocks mocks-IsConsistent

abbrev own_callback : Callback
own_callback = record {
  id = txt "1";
  slug = txt "Ping";
  name = none;
  file_path = none;
  method = txt "POST";
  host = none;
  path = none;
  url = some (txt "http://a.b/c");
  delay = 0;
  headers = [];
  body = none;
  annotations = temporary ∷ [];
}

abbrev of_file : Callback
of_file = record own_callback { id = txt "2"; slug = txt "ping"; annotations = read_only ∷ [] }

abbrev change : PatchCallbackInput
change = record {
  name = none;
  method = txt "PUT";
  host = none;
  path = none;
  url = some (txt "http://a.b/d");
  delay = 5;
  headers = [];
  body = none;
}

abbrev callbacks : Callbacks.Panel parse (redis_store callback_id) [] (of_file ∷ [])
unfolding redis_store
callbacks = record { own = own_callback ∷ []; deployed = []; gets_through = true }

callbacks-IsConsistent :
    CallbacksSound.IsConsistent parse (redis_store callback_id) [] (of_file ∷ []) callbacks
unfolding redis_store Callbacks.invalid field_template_error nat_eq ℕ_discrete
callbacks-IsConsistent = record {
  valid = tt;
  sound = (record { body = tt; path = tt; url = refl; headers = tt }, tt);
}

handle_callbacks-Settled_example :
    CallbacksSound.IsConsistent parse (redis_store callback_id) [] (of_file ∷ []) (
      CallbacksSound.handle parse
        (redis_store callback_id)
        []
        (of_file ∷ [])
        (CallbacksSound.update (txt "1") change)
        callbacks)
    × CallbacksSound.Settled parse
        (redis_store callback_id)
        []
        (of_file ∷ [])
        (CallbacksSound.refusal parse
          (redis_store callback_id)
          []
          (of_file ∷ [])
          (CallbacksSound.update (txt "1") change)
          callbacks)
        callbacks
        (CallbacksSound.handle parse
          (redis_store callback_id)
          []
          (of_file ∷ [])
          (CallbacksSound.update (txt "1") change)
          callbacks)
handle_callbacks-Settled_example =
    handle_callbacks-Settled parse (redis_store callback_id) [] (of_file ∷ [])
      (CallbacksSound.update (txt "1") change) callbacks callbacks-IsConsistent

fire-StandsFor_example :
    (asked : Callback) × ((Elem asked
          (list_callbacks parse (redis_store callback_id) [] (of_file ∷ []) callbacks)
        × ((asked.id ≡ txt "1") × (asked.slug ≡ txt "Ping")))
      × ((found : Callback) × ((find_by_slug_preferring_ui callback_slug is_ui
                (list_callbacks parse (redis_store callback_id) [] (of_file ∷ []) callbacks)
                (txt "Ping")
              ≡ some found)
            × (is_ui found ≡ is_ui asked))))
unfolding fire redis_store list_callbacks text_eq ℕ_discrete mocko.Base.to_lower_case
fire-StandsFor_example =
    fire-StandsFor parse (redis_store callback_id) [] (of_file ∷ []) (txt "1") (txt "Ping")
      callbacks refl
