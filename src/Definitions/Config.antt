-- ===== src/Definitions/Config.antt =====
-- What a parsed configuration file defines: definitionFromConfig of definitions/data/mocko-definition.ts
-- with mockFromConfig, hostFromConfig and callbackFromConfig, all in mocko-core/src. A is the type of
-- the values that the parser of the file gives, and `attribute` reads a property of one. The schemas of
-- Joi and the template parser are arguments: what they throw is a message. A throw discards the
-- errors that were handed on before it.
pub mod Checked
pub mod Accounts
use mocko.Base.{
  ℕ, zero, suc, Text, txt, Bool, true, false, not, Option, none, some, List, [], ◌∷◌, ◌++◌, map,
  any, is_empty, trim, to_lower_case, to_upper_case, ◌==◌, nat_eq, text_eq, if◌then◌else◌,
}
use mocko.Base.Dict
use mocko.Base.Dict.{Dict}
use mocko.Base.Result.{Result, ok, err, ◌>>=◌, ◌>>◌}
use mocko.Definitions.Data.{
  Value, array, scalar, Record, DataBlocks, Mock, Host, Callback, MockoDefinition,
}
use mocko.Definitions.Records.{merge_records}
use mocko.Definitions.Stanzas.{
  Attribute, ConfigError, MockCandidate, HostCandidate, CallbackCandidate, Config, or_value,
  split_request, method_of_request, trimmed_name, callback_name, callback_method, located,
  format_conflicts, sorted_in, collect, collect_or_throw, collect_with, blocks_of, stanzas,
  data_entries, missing, null, no_entries, text, number, boolean, other, not_blocks, name_not_text,
  on_mock, on_host, on_callback,
}

module _ {A : Type 0} (attribute : A → Text → Attribute A)
    (mock_schema : MockCandidate A → Result Text Mock)
    (host_schema : HostCandidate A → Result Text Host)
    (callback_schema : CallbackCandidate A → Result Text Callback)
    (parse_template : Text → Option Text) where
  -- `x?.[0]`
  unfoldable pub first_element : Attribute A → Attribute A
  first_element (other a) = attribute a (txt "0")
  first_element (text (c ∷ cs)) = text (c ∷ [])
  first_element x = missing

  -- `data?.[0]?.name` for the blocks of one name; what is no array has no blocks
  unfoldable pub first_block : Value A → Text → Attribute A
  first_block (array []) name = missing
  first_block (array (block ∷ blocks)) name = attribute block name
  first_block (scalar x) name = missing

  -- `assertFormatDoesNotConflictWithContentType`
  abbrev pub without_conflict : Mock → Result Text Mock
  unfolding format_conflicts
  without_conflict mock =
      if format_conflicts mock
      then err (txt "cannot use both 'format' and an explicit Content-Type header")
      else ok mock

  unfoldable pub validate_mock : MockCandidate A → Result Text Mock
  unfolding format_conflicts
  validate_mock candidate = do mock ← mock_schema candidate; without_conflict mock

  abbrev pub default_code : Text → Attribute A
  default_code method = number (if method == txt "POST" then 201 else 200)

  unfoldable pub mock_from_config : Text × A → Result ConfigError Mock
  unfolding validate_mock trimmed_name method_of_request split_request first_element or_value
  mock_from_config (req, res) = do
    name ← trimmed_name req (attribute res (txt "name"))
    located (on_mock req) (
        validate_mock (record {
          name = name;
          method = method_of_request req;
          path = (split_request req).1;
          host = attribute res (txt "host");
          parse = attribute res (txt "parse");
          format = attribute res (txt "format");
          is_enabled = attribute res (txt "enabled");
          labels = attribute res (txt "labels");
          code = or_value (attribute res (txt "status")) (default_code (method_of_request req));
          delay = attribute res (txt "delay");
          body = or_value (attribute res (txt "body")) (text []);
          headers = or_value (first_element (attribute res (txt "headers"))) no_entries;
        }))

  unfoldable pub host_from_config : Text × Value A → Result ConfigError Host
  unfolding first_block
  host_from_config (slug, data_value) = located (on_host slug) (
      host_schema (record {
        slug = slug;
        name = first_block data_value (txt "name");
        source = first_block data_value (txt "source");
        destination = first_block data_value (txt "destination");
      }))

  abbrev pub template_message : Text → Text → Text
  template_message field message = txt "invalid template in " ++ (field ++ (txt ": " ++ message))

  abbrev pub parsed_or_thrown : Text → Option Text → Result Text (Unit {0})
  parsed_or_thrown field none = ok tt
  parsed_or_thrown field (some message) = err (template_message field message)

  unfoldable pub assert_template_parses : Text → Option Text → Result Text (Unit {0})
  assert_template_parses field none = ok tt
  assert_template_parses field (some template) = parsed_or_thrown field (parse_template template)

  unfoldable pub assert_headers_parse : Dict Text Text → Result Text (Unit {0})
  unfolding assert_template_parses
  assert_headers_parse [] = ok tt
  assert_headers_parse ((key, value) ∷ headers) =
      assert_template_parses (txt "header '" ++ (key ++ txt "'")) (some value)
      >> assert_headers_parse headers

  unfoldable pub validate_callback : CallbackCandidate A → Result Text Callback
  unfolding assert_template_parses assert_headers_parse
  validate_callback candidate = do
    callback ← callback_schema candidate
    assert_template_parses (txt "path") callback.path
    assert_template_parses (txt "url") callback.url
    assert_template_parses (txt "body") callback.body
    assert_headers_parse callback.headers
    ok callback

  unfoldable pub callback_from_config : Text × Value A → Result ConfigError Callback
  unfolding validate_callback callback_name callback_method first_block first_element
  callback_from_config (slug, data_value) = located (on_callback slug) (
      validate_callback (record {
        slug = slug;
        name = callback_name (first_block data_value (txt "name"));
        method = callback_method (first_block data_value (txt "method"));
        host = first_block data_value (txt "host");
        path = first_block data_value (txt "path");
        url = first_block data_value (txt "url");
        delay = first_block data_value (txt "delay");
        headers = first_element (first_block data_value (txt "headers"));
        body = first_block data_value (txt "body");
      }))

  unfoldable pub data_of_config :
      Option (List (Record (Record A))) → Result ConfigError (Option (DataBlocks A))
  unfolding merge_records data_entries
  data_of_config none = ok none
  data_of_config (some blocks) = do entries ← data_entries (merge_records blocks); ok (some entries)

  -- what a file defines, and the errors of its mocks, its hosts and its callbacks that are handed on
  unfoldable pub definition_from_config :
      (on_host_error on_callback_error : Bool)
      → Config A
      → Result ConfigError
          (MockoDefinition A × (List ConfigError × (List ConfigError × List ConfigError)))
  unfolding mock_from_config host_from_config callback_from_config merge_records stanzas
      collect_with collect data_of_config
  definition_from_config on_host_error on_callback_error config = do
    blocks ← stanzas (merge_records config.mock)
    data_blocks ← data_of_config config.data_blocks
    (hosts, host_errors) ← collect_with on_host_error host_from_config (merge_records config.host)
    (callbacks, callback_errors) ←
        collect_with on_callback_error callback_from_config (merge_records config.callback)
    let (mocks, mock_errors) = collect mock_from_config blocks in
        ok (
          record { mocks = mocks; hosts = hosts; callbacks = callbacks; data_blocks = data_blocks },
          (mock_errors, (host_errors, callback_errors)),
        )
