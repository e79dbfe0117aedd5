-- ===== src/Definitions/Provider/Currency.antt =====
-- When the loaded definitions are those of the latest deploy.
use mocko.Base.{◌≡◌, refl, sym, subst, ap, ◌∙◌, Option, none, some, arith}
use mocko.Definitions.Data.{MockoDefinition}
use mocko.Definitions.Merge.{merge_definitions}
use mocko.Definitions.Provider.{
  LoadedDefinitions, Build, DefinitionProvider, clear_definitions, set_deploy_definition,
  start_build, get_loaded_definitions, loaded_from, finish_build,
}

-- What was read last: the files, when a build started, and Redis, when one ended.
pub record Seen (A : Type 0) : Type 0 where
  pub files : MockoDefinition A
  pub redis : Option (MockoDefinition A)

-- A call from outside, or a piece of a build. Files are read where no definitions are loaded. A build
-- whose call of Redis throws ends with nothing. A deploy comes between builds.
pub data Step {A : Type 0} (s : DefinitionProvider A) (seen : Seen A)
    : DefinitionProvider A → Seen A → Type 0 where
  cleared : Step s seen (clear_definitions s) seen
  deployed_to :
      (definition : MockoDefinition A)
      → s.building ≡ none
      → Step s seen (set_deploy_definition definition s) seen
  asked :
      (files : MockoDefinition A)
      → s.building ≡ none
      → s.definitions ≡ none
      → Step s seen (get_loaded_definitions files s) (record seen { files = files })
  asked_again :
      (files : MockoDefinition A) (loaded : LoadedDefinitions A)
      → s.definitions ≡ some loaded
      → Step s seen (get_loaded_definitions files s) seen
  built :
      (build : Build A) (redis : Option (MockoDefinition A))
      → s.building ≡ some build
      → Step s seen (finish_build build redis s) (record seen { redis = redis })
  failed :
      (build : Build A) → s.building ≡ some build → Step s seen (record s { building = none }) seen

pub data Reach {A : Type 0} (s : DefinitionProvider A) (seen : Seen A)
    : DefinitionProvider A → Seen A → Type 0 where
  begin : Reach s seen s seen
  next :
      {t u : DefinitionProvider A} {before after : Seen A}
      → Reach s seen t before
      → Step t before u after
      → Reach s seen u after

abbrev pub initial : (A : Type 0) → DefinitionProvider A
initial A = record { definitions = none; deploy_definition = none; building = none }

record IsCurrent {A : Type 0} (s : DefinitionProvider A) (seen : Seen A) : Type 0 where
  build_files : (b : Build A) → s.building ≡ some b → b.file_definitions ≡ seen.files
  build_deploy : (b : Build A) → s.building ≡ some b → b.deploy_definitions ≡ s.deploy_definition
  loaded :
      (l : LoadedDefinitions A)
      → s.definitions ≡ some l
      → (l.merged ≡ merge_definitions seen.files seen.redis s.deploy_definition)
        × (l.file ≡ seen.files)
        × (s.building ≡ none)

asked-IsCurrent :
    {A : Type 0} (files : MockoDefinition A) (s : DefinitionProvider A) (seen : Seen A)
    → s.definitions ≡ none
    → IsCurrent (get_loaded_definitions files s) (record seen { files = files })
unfolding get_loaded_definitions start_build
asked-IsCurrent files s seen empty =
    rw (empty, get_loaded_definitions)
      (record { build_files = λ b e. cc; build_deploy = λ b e. cc; loaded = λ l e. cc })

again :
    {A : Type 0} (files : MockoDefinition A) (s : DefinitionProvider A)
    (loaded : LoadedDefinitions A)
    → s.definitions ≡ some loaded
    → get_loaded_definitions files s ≡ s
unfolding get_loaded_definitions
again files s loaded e = ground arith

built-merged :
    {A : Type 0} (b : Build A) (redis : Option (MockoDefinition A)) (s : DefinitionProvider A)
    (seen : Seen A)
    → IsCurrent s seen
    → s.building ≡ some b
    → (loaded_from b redis).merged ≡ merge_definitions seen.files redis s.deploy_definition
built-merged b redis s seen c e =
    ap (λ files. merge_definitions files redis b.deploy_definitions) (c.build_files b e)
    ∙ ap (λ deploy. merge_definitions seen.files redis deploy) (c.build_deploy b e)

Step-IsCurrent :
    {A : Type 0} {s t : DefinitionProvider A} {seen after : Seen A}
    → Step s seen t after
    → IsCurrent s seen
    → IsCurrent t after
unfolding clear_definitions set_deploy_definition finish_build
Step-IsCurrent cleared c = record {
  build_files = c.build_files;
  build_deploy = c.build_deploy;
  loaded = λ l e. cc;
}
Step-IsCurrent (deployed_to definition idle) c = record {
  build_files = λ b e. cc;
  build_deploy = λ b e. cc;
  loaded = λ l e. cc;
}
Step-IsCurrent {s = s} {seen = seen} (asked files idle empty) c = asked-IsCurrent files s seen empty
Step-IsCurrent {s = s} {seen = seen} (asked_again files loaded e) c =
    subst (λ t. IsCurrent t seen) (sym (again files s loaded e)) c
Step-IsCurrent {s = s} {seen = seen} (built b redis e) c = record {
  build_files = λ other h. cc;
  build_deploy = λ other h. cc;
  loaded = λ l h.
      let same : loaded_from b redis ≡ l = cc in
      (
        sym (ap (λ x. x.merged) same) ∙ built-merged b redis s seen c e,
        sym (ap (λ x. x.file) same) ∙ c.build_files b e,
        refl,
      );
}
Step-IsCurrent (failed b e) c = record {
  build_files = λ other h. cc;
  build_deploy = λ other h. cc;
  loaded = λ l h. let (merged, file, idle) = c.loaded l h in (merged, file, refl);
}

Reach-IsCurrent :
    {A : Type 0} {s : DefinitionProvider A} {seen : Seen A} {t : DefinitionProvider A}
    {after : Seen A}
    → Reach s seen t after
    → IsCurrent s seen
    → IsCurrent t after
Reach-IsCurrent begin c = c
Reach-IsCurrent (next r step) c = Step-IsCurrent step (Reach-IsCurrent r c)

initial-IsCurrent : {A : Type 0} (seen : Seen A) → IsCurrent (initial A) seen
initial-IsCurrent seen = record {
  build_files = λ b e. cc;
  build_deploy = λ b e. cc;
  loaded = λ l e. cc;
}

pub definitions-merged :
    {A : Type 0} (s : DefinitionProvider A) (first seen : Seen A) (loaded : LoadedDefinitions A)
    → Reach (initial A) first s seen
    → s.definitions ≡ some loaded
    → (loaded.merged ≡ merge_definitions seen.files seen.redis s.deploy_definition)
      × (loaded.file ≡ seen.files)
      × (s.building ≡ none)
definitions-merged s first seen loaded r e =
    (Reach-IsCurrent r (initial-IsCurrent first)).loaded loaded e
