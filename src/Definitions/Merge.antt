-- ===== src/Definitions/Merge.antt =====
-- `mergeDefinitions` of mocko-core/src/definitions/definition.provider.ts, and what the definitions
-- of all files are.
pub mod Precedence
use mathlib.Core.List.{flatten}
use mocko.Base.{
  Text, to_lower_case, Bool, Option, none, some, List, [], ◌∷◌, ◌++◌, map, contains, text_eq,
  if◌then◌else◌, or_else, filter, is_some,
}
use mocko.Definitions.Data.{
  Source, file, deployed, Mock, Host, Callback, MockoDefinition, DataBlocks,
}
use mocko.Definitions.Records.{merge_data}

module _ {T : Type 0} (slug : T → Text) where
  -- the `filter` of `uniqueBySlug`, with the set of the keys that it has seen
  unfoldable pub unique_from : List Text → List T → List T
  unique_from seen [] = []
  unique_from seen (item ∷ items) =
      let key = to_lower_case (slug item) in
      let skipped = unique_from seen items in
      let kept = item ∷ unique_from (key ∷ seen) items in
      if contains seen key then skipped else kept

  abbrev pub unique_by_slug : List T → List T
  unique_by_slug items = unique_from [] items

-- `mock.source || source`
unfoldable pub with_source : List Mock → Source → List Mock
with_source mocks source =
    map {A = Mock} (λ mock. record mock { source = some (or_else mock.source source) }) mocks

unfoldable pub with_callback_source : List Callback → List Callback
with_callback_source callbacks =
    map {A = Callback}
      (λ callback. record callback { source = some (or_else callback.source deployed) }) callbacks

module _ {A : Type 0} where
  -- `definitions?.mocks || []`, and so for the other fields
  abbrev mocks_of : Option (MockoDefinition A) → List Mock
  mocks_of none = []
  mocks_of (some d) = d.mocks

  abbrev pub hosts_of : Option (MockoDefinition A) → List Host
  hosts_of none = []
  hosts_of (some d) = d.hosts

  abbrev pub callbacks_of : Option (MockoDefinition A) → List Callback
  callbacks_of none = []
  callbacks_of (some d) = d.callbacks

  abbrev pub data_of : Option (MockoDefinition A) → DataBlocks A
  data_of none = []
  data_of (some d) = or_else d.data_blocks []

  unfoldable pub merge_definitions :
      MockoDefinition A
      → Option (MockoDefinition A)
      → Option (MockoDefinition A)
      → MockoDefinition A
  unfolding with_source with_callback_source unique_from merge_data
  merge_definitions from_files from_redis from_deploy = record {
    mocks =
        with_source (mocks_of from_deploy) deployed
        ++ (with_source (mocks_of from_redis) deployed ++ with_source from_files.mocks file);
    hosts =
        unique_by_slug (λ (host : Host). host.slug)
          (hosts_of from_deploy ++ (hosts_of from_redis ++ from_files.hosts));
    callbacks =
        unique_by_slug (λ (callback : Callback). callback.slug)
          (with_callback_source (callbacks_of from_deploy)
            ++ (with_callback_source (callbacks_of from_redis) ++ from_files.callbacks));
    data_blocks =
        some
          (merge_data (data_of (some from_files) ∷ data_of from_redis ∷ data_of from_deploy ∷ []));
  }

  -- `getFileDefinitions`: the definitions of the files that parsed, put together
  unfoldable pub file_definitions : List (Option (MockoDefinition A)) → MockoDefinition A
  unfolding merge_data
  file_definitions options = record {
    mocks = flatten (map mocks_of (filter is_some options));
    hosts = flatten (map hosts_of (filter is_some options));
    callbacks = flatten (map callbacks_of (filter is_some options));
    data_blocks = some (merge_data (map data_of (filter is_some options)));
  }
