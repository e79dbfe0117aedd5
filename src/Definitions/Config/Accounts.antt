-- ===== src/Definitions/Config/Accounts.antt =====
-- What definitionFromConfig of mocko-core/src/definitions/data/mocko-definition.ts makes of each block.
use mocko.Base.{Text, ◌≡◌, refl, true, Option, none, some, List, map, All, text_eq, Elem}
use mocko.Base.Result.{Result, ok}
use mocko.Definitions.Data.{Record, DataBlocks, Mock, Host, Callback, MockoDefinition}
use mocko.Base.Dict
use mocko.Base.Dict.{NodupKeys}
use mocko.Definitions.Records.{merge_records}
use mocko.Definitions.Records.Laws.{combined, get-merge_records}
use mocko.Definitions.Stanzas.Named.{named, written, named-merge_records, merge_records-NodupKeys}
use mocko.Definitions.Stanzas.{
  Attribute, ConfigError, MockCandidate, HostCandidate, CallbackCandidate, Config, collect,
  collect_with,
}
use mocko.Definitions.Config.{
  mock_from_config, host_from_config, callback_from_config, data_of_config, definition_from_config,
}
use mocko.Definitions.Stanzas.Blocks.{
  AreArrays, merge_records-AreArrays, stanzas-ok, data_entries-ok,
}
use mocko.Definitions.Stanzas.Sorted.{IsSorted, collect-IsSorted, IsSorted-All, IsSorted-Errors}
use mocko.Definitions.Config.Checked.{
  IsTemplated, TellsOf, HasOneType, callback-Checked, mock-HasNoConflict, mock-Names,
}

module _ {A : Type 0} (attribute : A → Text → Attribute A)
    (mock_schema : MockCandidate A → Result Text Mock)
    (host_schema : HostCandidate A → Result Text Host)
    (callback_schema : CallbackCandidate A → Result Text Callback)
    (parse_template : Text → Option Text) where
  abbrev pub DataAreArrays : Option (List (Record (Record A))) → Type 0
  DataAreArrays none = Unit {0}
  DataAreArrays (some records) = All AreArrays records

  data_of_config-ok :
      (blocks : Option (List (Record (Record A))))
      → DataAreArrays blocks
      → (entries : Option (DataBlocks A)) × (data_of_config attribute mock_schema host_schema
            callback_schema parse_template blocks
          ≡ ok entries)
  unfolding data_of_config
  data_of_config-ok none h = (none, refl)
  data_of_config-ok (some records) h =
      let (entries, e) =
        data_entries-ok (merge_records records) (merge_records-AreArrays records h) in
      (some entries, rw e refl)

  -- Each name has its value of the records: its arrays one after the other, and else the last value.
  abbrev pub HasValuesOf : List (Record A) → Record A → Type 0
  HasValuesOf records entries =
      (key : Text) → Dict.get key entries ≡ combined none (map (λ r. Dict.get key r) records)

  pub record IsAccounted (config : Config A) (definition : MockoDefinition A)
      (mock_errors host_errors callback_errors : List ConfigError) : Type 0 where
    pub blocks : List (Text × A)
    pub blocks_named : (req : Text) → named req blocks ≡ written req config.mock
    pub host_entries : Record A
    pub host_keys : NodupKeys host_entries
    pub host_values : HasValuesOf config.host host_entries
    pub callback_entries : Record A
    pub callback_keys : NodupKeys callback_entries
    pub callback_values : HasValuesOf config.callback callback_entries
    pub mocks :
        IsSorted
          (mock_from_config attribute mock_schema host_schema callback_schema parse_template)
          blocks
          definition.mocks
          mock_errors
    pub hosts :
        IsSorted
          (host_from_config attribute mock_schema host_schema callback_schema parse_template)
          host_entries
          definition.hosts
          host_errors
    pub callbacks :
        IsSorted
          (callback_from_config attribute mock_schema host_schema callback_schema parse_template)
          callback_entries
          definition.callbacks
          callback_errors
    pub no_conflict : All HasOneType definition.mocks
    pub templated :
        All
          (IsTemplated attribute mock_schema host_schema callback_schema parse_template)
          definition.callbacks
    pub told :
        All
          (λ e.
            (block : Text × A) × (Elem block blocks
              × TellsOf attribute mock_schema host_schema callback_schema parse_template block e))
          mock_errors

  -- Where the parser of a file gives arrays of blocks for mocks and data, each record of hosts or of
  -- callbacks has a name once, and the errors of hosts and callbacks have a handler, nothing is thrown.
  -- Each block of a mock becomes a mock of the definition or has its error handed on, in order, and none
  -- is made up: under each name the blocks are those of the file's records, one after the other. Each
  -- name of a host or of a callback does so once, with its value of the file's records: the arrays of
  -- the name one after the other, and else the last value. No mock that is kept has a format beside a
  -- header Content-Type, in any case of letters, every template of a callback that is kept parses, and
  -- each error of a mock is that of a block, and tells its method and path, or that its name is no text.
  pub definition_from_config-IsAccounted :
      (config : Config A)
      → All AreArrays config.mock
      → DataAreArrays config.data_blocks
      → All NodupKeys config.host
      → All NodupKeys config.callback
      → (definition : MockoDefinition A) × ((mock_errors : List ConfigError) × ((host_errors : List
              ConfigError)
            × ((callback_errors : List ConfigError) × ((definition_from_config attribute mock_schema
                      host_schema callback_schema parse_template true true config
                    ≡ ok (definition, (mock_errors, (host_errors, callback_errors))))
                  × IsAccounted config definition mock_errors host_errors callback_errors))))
  unfolding definition_from_config collect_with
  definition_from_config-IsAccounted config mocks data_records host_records callback_records =
      let mock_of =
        mock_from_config attribute mock_schema host_schema callback_schema parse_template in
      let host_of =
        host_from_config attribute mock_schema host_schema callback_schema parse_template in
      let callback_of =
        callback_from_config attribute mock_schema host_schema callback_schema parse_template in
      let (blocks, e) =
        stanzas-ok (merge_records config.mock) (merge_records-AreArrays config.mock mocks) in
      let (entries, f) = data_of_config-ok config.data_blocks data_records in
      let sorted = collect-IsSorted mock_of blocks in
      let sorted_callbacks = collect-IsSorted callback_of (merge_records config.callback) in
      (
        record {
          mocks = (collect mock_of blocks).0;
          hosts = (collect host_of (merge_records config.host)).0;
          callbacks = (collect callback_of (merge_records config.callback)).0;
          data_blocks = entries;
        },
        (
          (collect mock_of blocks).1,
          (
            (collect host_of (merge_records config.host)).1,
            (
              (collect callback_of (merge_records config.callback)).1,
              (
                rw e (rw f refl),
                record {
                  blocks = blocks;
                  blocks_named = λ req. named-merge_records req config.mock blocks mocks e;
                  host_entries = merge_records config.host;
                  host_keys = merge_records-NodupKeys config.host;
                  host_values = λ key. get-merge_records key config.host host_records;
                  callback_entries = merge_records config.callback;
                  callback_keys = merge_records-NodupKeys config.callback;
                  callback_values = λ key. get-merge_records key config.callback callback_records;
                  mocks = sorted;
                  hosts = collect-IsSorted host_of (merge_records config.host);
                  callbacks = sorted_callbacks;
                  no_conflict =
                      IsSorted-All
                        (mock-HasNoConflict attribute mock_schema host_schema callback_schema
                          parse_template)
                        sorted;
                  templated =
                      IsSorted-All
                        (callback-Checked attribute mock_schema host_schema callback_schema
                          parse_template)
                        sorted_callbacks;
                  told =
                      IsSorted-Errors
                        (mock-Names attribute mock_schema host_schema callback_schema
                          parse_template)
                        sorted;
                },
              ),
            ),
          ),
        ),
      )
