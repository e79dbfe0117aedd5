-- ===== src/Tests/Reaching.antt =====
-- The theorem on the mocks that reach the routes of the core, at a panel with one mock whose path is
-- changed, and a core with one mock in its files.
use native.Mathlib.Decide.{ℕ_discrete}
use mocko.Base.{
  ℕ, ◌≡◌, refl, Text, txt, true, Option, none, some, [], ◌∷◌, text_eq, nat_eq, if◌then◌else◌,
  filter, contains, inl, subst,
}
use mocko.Base.Result.{Result, ok}
use mocko.Definitions.Data.{MockoDefinition}
use mocko.Definitions.Data
use mocko.Definitions.Merge.{merge_definitions}
use mocko.Routes.{get_mock_routes}
use mocko.Control.Store.Redis.{redis_store, save}
use mocko.Control.Hosts.{unset}
use mocko.Control.Mocks
use mocko.Control.Mocks.{Mock, DeployMock, PatchMockInput, mock_id}
use mocko.Control.Mocks.Sound
use mocko.Serving.{Stored, get_redis_definitions}
use mocko.Serving.Expected.{Zip, Serves, Keeps, to_serve, is_deployed}
use mocko.Serving.Own.{handle-Served}

abbrev parse : Text → Option (Text × ℕ)
parse body = if contains body 123 then some (txt "unclosed", 0) else none

abbrev own_mock : Mock
own_mock = record {
  id = txt "1";
  name = txt "first";
  method = txt "GET";
  path = txt "/a";
  host = none;
  file_path = none;
  format = none;
  response = record { code = 200; delay = none; body = some (txt "hi"); headers = [] };
  is_enabled = true;
  labels = [];
  annotations = [];
}

abbrev moved : PatchMockInput
moved = record {
  name = none;
  method = none;
  path = some (txt "/b");
  host = unset;
  format = none;
  labels = none;
  response = none;
  is_enabled = none;
}

abbrev no_file : Text → Option Mock
no_file id = none

abbrev panel : Mocks.Panel parse (redis_store mock_id) [] no_file
unfolding redis_store
panel = record { own = own_mock ∷ []; deployed = []; failures = []; gets_through = true }

panel-IsConsistent : Sound.IsConsistent parse (redis_store mock_id) [] no_file panel
unfolding redis_store mocko.Control.Templates.template_error Mocks.format_conflicts nat_eq
    ℕ_discrete
panel-IsConsistent = record {
  valid = tt;
  sound = (record { template = inl refl; format = inl refl }, tt);
}

abbrev after : Mocks.Panel parse (redis_store mock_id) [] no_file
after = Sound.handle parse (redis_store mock_id) [] no_file (Sound.update (txt "1") moved) panel

-- a schema that takes every mock
abbrev made : DeployMock → Data.Mock
made stored = record {
  id = some stored.id;
  name = none;
  source = none;
  file_path = none;
  is_enabled = true;
  method = stored.method;
  path = stored.path;
  parse = stored.parse;
  format = stored.format;
  host = stored.host;
  labels = stored.labels;
  response = record {
    code = stored.code;
    delay = stored.delay;
    body = stored.body;
    headers = stored.headers;
  };
}

abbrev schema : DeployMock → Result Text Data.Mock
schema stored = ok (made stored)

schema-Keeps :
    (stored : DeployMock) (mock : Data.Mock) → schema stored ≡ ok mock → Keeps stored mock
schema-Keeps stored mock h =
    let same : made stored ≡ mock = cc in
    subst (Keeps stored) same (record {
      id = refl;
      source = refl;
      is_enabled = refl;
      method = refl;
      path = refl;
      host = refl;
      body = refl;
      code = refl;
    })

abbrev moved_mock : Data.Mock
moved_mock = record {
  id = some (txt "1");
  name = none;
  source = none;
  file_path = none;
  is_enabled = true;
  method = txt "GET";
  path = txt "/b";
  parse = true;
  format = none;
  host = none;
  labels = [];
  response = record { code = 200; delay = none; body = txt "hi"; headers = [] };
}

abbrev from_files : MockoDefinition ℕ
from_files = record {
  mocks = (record moved_mock { id = none; path = txt "/file"; source = some Data.file }) ∷ [];
  hosts = [];
  callbacks = [];
  data_blocks = none;
}

abbrev read : MockoDefinition ℕ
read = record { mocks = moved_mock ∷ []; hosts = []; callbacks = []; data_blocks = none }

abbrev stored : Stored
stored = record { mocks = after.deployed; hosts = []; callbacks = [] }

handle-Served_example :
    let merged = merge_definitions from_files (some read) none in
    Zip
      (Serves merged.hosts)
      (filter to_serve ((redis_store mock_id).list after.own))
      (filter is_deployed (get_mock_routes merged))
unfolding Sound.handle Sound.refusal get_redis_definitions redis_store Mocks.update_mock text_eq
    Mocks.to_deploy_definition save
handle-Served_example =
    handle-Served parse (redis_store mock_id) [] no_file schema schema-Keeps
      (Sound.update (txt "1") moved) panel stored from_files read panel-IsConsistent refl refl refl
      refl (refl, tt)
