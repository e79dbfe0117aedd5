-- ===== src/Control/Mocks.antt =====
-- mocko-control/lib/mock/mock.service.ts, with mock/mock.mapper.ts, over any store of own mocks. What the core answers for the mock of a file is an argument.
pub mod Sound
use mocko.Base.{
  ℕ, Text, txt, Bool, true, false, not, ◌&&◌, Option, none, some, List, [], ◌∷◌, ◌++◌, any, map,
  filter, is_some, length, or_else, first, to_lower_case, ◌==◌, text_eq, if◌then◌else◌,
}
use mocko.Base.Dict
use mocko.Base.Dict.{Dict}
use mocko.Base.Result.{Result, ok, err}
use mocko.Control.Store.{has_id, OwnStore}
use mocko.Control.Hosts.{Patched, patch}
use mocko.Control.Templates.{TemplateParseError, template_error, present}

pub data MockAnnotation : Type 0 where
  temporary read_only invalid_template : MockAnnotation

abbrev pub is_read_only : MockAnnotation → Bool
is_read_only read_only = true
is_read_only temporary = false
is_read_only invalid_template = false

abbrev pub is_invalid_template : MockAnnotation → Bool
is_invalid_template invalid_template = true
is_invalid_template read_only = false
is_invalid_template temporary = false

pub record MockResponse : Type 0 where
  pub code : ℕ
  pub delay : Option ℕ
  pub body : Option Text
  pub headers : Dict Text Text

pub record Mock : Type 0 where
  pub id : Text
  pub name : Text
  pub method : Text
  pub path : Text
  pub host : Option Text
  pub file_path : Option Text
  pub format : Option Text
  pub response : MockResponse
  pub is_enabled : Bool
  pub labels : List Text
  pub annotations : List MockAnnotation

pub record CreateMockInput : Type 0 where
  pub name : Text
  pub method : Text
  pub path : Text
  pub host : Option Text
  pub format : Option Text
  pub labels : Option (List Text)
  pub response : MockResponse

pub record PatchMockInput : Type 0 where
  pub name : Option Text
  pub method : Option Text
  pub path : Option Text
  pub host : Patched
  pub format : Option Text
  pub labels : Option (List Text)
  pub response : Option MockResponse
  pub is_enabled : Option Bool

pub data MockError : Type 0 where
  mock_not_found : Text → MockError
  mock_read_only : Text → MockError
  template_parse_error : TemplateParseError → MockError
  content_type_conflict : MockError

abbrev pub mock_id : Mock → Text
mock_id mock = mock.id

-- `data.host || undefined`
abbrev pub or_undefined : Option Text → Option Text
or_undefined = present

unfoldable pub has_content_type : Dict Text Text → Bool
has_content_type headers = any (λ key. to_lower_case key == txt "content-type") (Dict.keys headers)

-- `!mock.format` lets any header pass
unfoldable pub format_conflicts : Mock → Bool
unfolding has_content_type
format_conflicts mock = is_some (present mock.format) && has_content_type mock.response.headers

abbrev pub new_mock : List MockAnnotation → Text → CreateMockInput → Mock
new_mock created uuid input = record {
  id = uuid;
  name = input.name;
  method = input.method;
  path = input.path;
  host = or_undefined input.host;
  file_path = none;
  format = input.format;
  response = input.response;
  is_enabled = true;
  labels = or_else input.labels [];
  annotations = created;
}

abbrev pub updated : PatchMockInput → Mock → Mock
updated input mock = record {
  id = mock.id;
  name = or_else input.name mock.name;
  method = or_else input.method mock.method;
  path = or_else input.path mock.path;
  host = patch input.host mock.host;
  file_path = mock.file_path;
  format = first input.format mock.format;
  response = or_else input.response mock.response;
  is_enabled = or_else input.is_enabled mock.is_enabled;
  labels = or_else input.labels mock.labels;
  annotations = filter (λ a. not (is_invalid_template a)) mock.annotations;
}

-- What a deploy hands the core of a mock.
pub record DeployMock : Type 0 where
  pub id : Text
  pub method : Text
  pub path : Text
  pub parse : Bool
  pub format : Option Text
  pub host : Option Text
  pub labels : List Text
  pub code : ℕ
  pub delay : Option ℕ
  pub body : Text
  pub headers : Dict Text Text

abbrev pub deployed_mock : Mock → DeployMock
deployed_mock mock = record {
  id = mock.id;
  method = mock.method;
  path = mock.path;
  parse = true;
  format = mock.format;
  host = mock.host;
  labels = mock.labels;
  code = mock.response.code;
  delay = mock.response.delay;
  body = or_else mock.response.body [];
  headers = mock.response.headers;
}

-- the mocks of `toDeployDefinition`
unfoldable pub to_deploy_definition : List Mock → List DeployMock
to_deploy_definition mocks = map deployed_mock (filter (λ mock. mock.is_enabled) mocks)

module _ (parse : Text → Option (Text × ℕ)) (store : OwnStore mock_id)
    (created : List MockAnnotation) (file_mock : Text → Option Mock) where
  -- The own mocks, the mocks of the last definition handed to the core, and the ids of the mocks with a
  -- failure on record. `deploy` of the store only logs an error: `gets_through` says whether it has none.
  pub record Panel : Type 0 where
    pub own : store.State
    pub deployed : List DeployMock
    pub failures : List Text
    pub gets_through : Bool

  -- `getMock` of the store: an own mock, or that of a file
  unfoldable pub get_mock : Text → Panel → Option Mock
  get_mock id panel = first (store.get id panel.own) (file_mock id)

  abbrev pub deploy : Panel → Panel
  deploy panel = record panel {
    deployed =
        if panel.gets_through then to_deploy_definition (store.list panel.own) else panel.deployed;
  }

  abbrev pub save_and_deploy : Mock → Panel → Panel
  save_and_deploy mock panel = deploy (record panel { own = store.save mock panel.own })

  abbrev pub clear_failure : Text → Panel → Panel
  clear_failure id panel = record panel {
    failures = filter (λ failed. not (failed == id)) panel.failures;
  }

  -- the two checks of a mock, the template first
  abbrev pub refused_template : Option TemplateParseError → Option MockError → Option MockError
  refused_template none then_error = then_error
  refused_template (some e) then_error = some (template_parse_error e)

  unfoldable pub invalid : Mock → Option MockError
  unfolding format_conflicts template_error
  invalid mock =
      refused_template (template_error parse mock.response.body)
        (if format_conflicts mock then some content_type_conflict else none)

  abbrev pub unless :
      Option MockError → Mock → (after : Panel) → Panel → Result MockError Mock × Panel
  unless none mock after panel = (ok mock, after)
  unless (some e) mock after panel = (err e, panel)

  unfoldable pub create_mock : Text → CreateMockInput → Panel → Result MockError Mock × Panel
  unfolding invalid
  create_mock uuid input panel =
      let mock = new_mock created uuid input in
      unless (invalid mock) mock (save_and_deploy mock panel) panel

  abbrev pub update_found :
      Text → PatchMockInput → Option Mock → Panel → Result MockError Mock × Panel
  update_found id input none panel = (err (mock_not_found id), panel)
  update_found id input (some current) panel =
      if any is_read_only current.annotations
      then (err (mock_read_only id), panel)
      else unless (invalid (updated input current)) (updated input current)
          (clear_failure current.id (save_and_deploy (updated input current) panel)) panel

  unfoldable pub update_mock : Text → PatchMockInput → Panel → Result MockError Mock × Panel
  unfolding get_mock invalid
  update_mock id input panel = update_found id input (get_mock id panel) panel

  unfoldable pub delete_mock : Text → Panel → Panel
  delete_mock id panel =
      clear_failure id (deploy (record panel { own = (store.delete id panel.own).1 }))
