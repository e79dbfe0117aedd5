-- ===== src/Tests/Merging.antt =====
-- The theorems on mocko-core/src/definitions, at definitions of files and of a deploy that share a
-- slug and a block of data.
use mocko.Base.{ℕ, ◌≡◌, refl, Text, txt, Bool, Option, none, some, List, [], ◌∷◌, first, text_eq}
use mocko.Definitions.Data.{Value, array, DataBlocks, Host, Callback, MockoDefinition}
use mocko.Definitions.Hosts.{find_host_by_slug}
use mocko.Definitions.Merge.{merge_definitions}
use mocko.Definitions.Merge.Precedence.{find_host_by_slug-merge_definitions}
use mocko.Definitions.Provider.{
  Build, DefinitionProvider, get_loaded_definitions, finish_build, loaded_from,
}
use mocko.Definitions.Provider.Currency.{
  Seen, Reach, begin, next, asked, built, initial, definitions-merged,
}
use mocko.Definitions.Records.Laws.{AreObjects}

abbrev host : Text → Text → Host
host slug source = record {
  id = none;
  slug = slug;
  name = none;
  source = source;
  destination = none;
  file_path = none;
}

abbrev callback : Text → Text → Callback
callback slug url = record {
  id = none;
  slug = slug;
  name = none;
  source = none;
  file_path = none;
  method = txt "POST";
  host = none;
  path = none;
  url = some url;
  delay = 0;
  headers = [];
  body = none;
}

abbrev blocks : Value ℕ → DataBlocks ℕ
blocks value = (txt "users", (txt "ids", value) ∷ []) ∷ []

abbrev from_files : MockoDefinition ℕ
from_files = record {
  mocks = [];
  hosts = host (txt "API") (txt "file.test") ∷ host (txt "web") (txt "web.test") ∷ [];
  callbacks = callback (txt "Done") (txt "http://file.test/") ∷ [];
  data_blocks = some (blocks (array (1 ∷ [])));
}

abbrev from_deploy : MockoDefinition ℕ
from_deploy = record {
  mocks = [];
  hosts = host (txt "api") (txt "deploy.test") ∷ [];
  callbacks = callback (txt "done") (txt "http://deploy.test/") ∷ [];
  data_blocks = some (blocks (array (2 ∷ [])));
}

abbrev merged : MockoDefinition ℕ
merged = merge_definitions from_files none (some from_deploy)

blocks-AreObjects : (value : Value ℕ) → AreObjects (blocks value)
unfolding mocko.Base.Dict.get
blocks-AreObjects value = ((refl, tt), ((refl, tt), tt))

find_host_by_slug-merge_definitions_example :
    find_host_by_slug merged.hosts (txt "Api")
    ≡ first
        (find_host_by_slug from_deploy.hosts (txt "Api"))
        (first (find_host_by_slug [] (txt "Api")) (find_host_by_slug from_files.hosts (txt "Api")))
find_host_by_slug-merge_definitions_example =
    find_host_by_slug-merge_definitions from_files none (some from_deploy) (txt "Api")

abbrev under_way : Build ℕ
under_way = record { file_definitions = from_files; deploy_definitions = none }

abbrev unseen : Seen ℕ
unseen = record { files = from_deploy; redis = none }

abbrev seen : Seen ℕ
seen = record { files = from_files; redis = some from_deploy }

abbrev loaded : DefinitionProvider ℕ
loaded = finish_build under_way (some from_deploy) (get_loaded_definitions from_files (initial ℕ))

loaded-Reach : Reach (initial ℕ) unseen loaded seen
unfolding get_loaded_definitions
loaded-Reach =
    next (next begin (asked from_files refl refl)) (built under_way (some from_deploy) refl)

definitions-merged_example :
    ((loaded_from under_way (some from_deploy)).merged
      ≡ merge_definitions from_files (some from_deploy) none)
    × (from_files ≡ from_files)
    × (loaded.building ≡ none)
unfolding finish_build get_loaded_definitions
definitions-merged_example =
    definitions-merged loaded unseen seen (loaded_from under_way (some from_deploy)) loaded-Reach
      refl
