-- ===== src/Tests/Routing.antt =====
-- The theorem on the configuration of a file, at one with a mock that is kept and one that is not.
use mocko.Base.{
  ◌≡◌, refl, Text, txt, true, Option, none, some, List, [], ◌∷◌, is_empty, text_eq, if◌then◌else◌,
}
use mocko.Base.Dict
use mocko.Base.Dict.{Dict}
use mocko.Base.Result.{Result, ok, err}
use mocko.Definitions.Data.{array, Mock, Host, Callback, MockoDefinition}
use mocko.Definitions.Stanzas.{
  Attribute, missing, text, ConfigError, MockCandidate, HostCandidate, CallbackCandidate, Config,
}
use mocko.Definitions.Config.{definition_from_config}
use mocko.Definitions.Config.Accounts.{IsAccounted, definition_from_config-IsAccounted}

abbrev Block : Type 0
Block = Dict Text Text

attribute : Block → Text → Attribute Block
unfolding Dict.get text_eq
attribute block name = elim (Dict.get name block) [ none ↦ missing | some t ↦ text t ]

-- schemas that ask for a path, and refuse every host and callback
abbrev mock_schema : MockCandidate Block → Result Text Mock
mock_schema candidate =
    if is_empty candidate.path
    then err (txt "path")
    else ok (record {
      id = none;
      name = none;
      source = none;
      file_path = none;
      is_enabled = true;
      method = candidate.method;
      path = candidate.path;
      parse = true;
      format = none;
      host = none;
      labels = [];
      response = record { code = 200; delay = none; body = []; headers = [] };
    })

abbrev host_schema : HostCandidate Block → Result Text Host
host_schema candidate = err (txt "host")

abbrev callback_schema : CallbackCandidate Block → Result Text Callback
callback_schema candidate = err (txt "callback")

abbrev parse_template : Text → Option Text
parse_template template = none

abbrev two_mocks : Config Block
two_mocks = record {
  mock =
      ((txt "get /a", array (((txt "name", txt "first") ∷ []) ∷ []))
        ∷ (txt "GET", array ([] ∷ []))
        ∷ [])
      ∷ [];
  data_blocks = none;
  host = [];
  callback = ((txt "paid", array ([] ∷ [])) ∷ []) ∷ [];
}

definition_from_config-IsAccounted_example :
    (definition : MockoDefinition Block) × ((mock_errors : List ConfigError) × ((host_errors : List
          ConfigError)
        × ((callback_errors : List ConfigError) × ((definition_from_config attribute mock_schema
                  host_schema callback_schema parse_template true true two_mocks
                ≡ ok (definition, (mock_errors, (host_errors, callback_errors))))
              × IsAccounted attribute mock_schema host_schema callback_schema parse_template
                  two_mocks definition mock_errors host_errors callback_errors))))
unfolding Dict.get
definition_from_config-IsAccounted_example =
    definition_from_config-IsAccounted attribute mock_schema host_schema callback_schema
      parse_template two_mocks ((((_, refl), ((_, refl), tt))), tt) tt tt ((refl, tt), tt)
