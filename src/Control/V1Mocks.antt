-- ===== src/Control/V1Mocks.antt =====
-- mocko-control/lib/management/v1-mock.mapper.ts, and `migrateV1Mocks` of store/redis-store.ts.
use mocko.Base.{
  ℕ, Text, Bool, true, Option, none, some, List, [], ◌∷◌, map, is_some, length, or_else,
  if◌then◌else◌,
}
use mocko.Base.Dict
use mocko.Base.Dict.{Dict}
use mocko.Control.Templates.{template_error}
use mocko.Control.Mocks.{Mock, invalid_template}

-- A mock of a V1 store, whose response, and each field of it, may be missing.
pub record V1Response : Type 0 where
  pub code : Option ℕ
  pub body : Option Text
  pub headers : Option (Dict Text Text)

pub record V1Mock : Type 0 where
  pub id : Text
  pub name : Text
  pub method : Text
  pub path : Text
  pub response : Option V1Response
  pub is_enabled : Option Bool

-- `v1.response?.code` and so on
abbrev pub v1_code : Option V1Response → Option ℕ
v1_code none = none
v1_code (some response) = response.code

abbrev pub v1_body : Option V1Response → Option Text
v1_body none = none
v1_body (some response) = response.body

abbrev pub v1_headers : Option V1Response → Option (Dict Text Text)
v1_headers none = none
v1_headers (some response) = response.headers

unfoldable pub to_v2_mock : (Text → Option (Text × ℕ)) → V1Mock → Mock
unfolding template_error
to_v2_mock parse v1 = record {
  id = v1.id;
  name = v1.name;
  method = v1.method;
  path = v1.path;
  host = none;
  file_path = none;
  format = none;
  response = record {
    code = or_else (v1_code v1.response) 200;
    delay = none;
    body = v1_body v1.response;
    headers = or_else (v1_headers v1.response) [];
  };
  is_enabled = or_else v1.is_enabled true;
  labels = [];
  annotations =
      if is_some (template_error parse (v1_body v1.response)) then invalid_template ∷ [] else [];
}

-- `migrateV1Mocks`: the mocks that are written over the own ones, and their number
unfoldable pub migrate_v1_mocks : (Text → Option (Text × ℕ)) → Dict Text V1Mock → List Mock × ℕ
unfolding to_v2_mock
migrate_v1_mocks parse entries =
    let mocks = map (to_v2_mock parse) (Dict.values entries) in (mocks, length mocks)
