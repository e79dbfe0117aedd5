-- ===== src/Definitions/Provider.antt =====
-- The cache of mocko-core/src/definitions/definition.provider.ts. `buildDefinitions` is cut after it
-- has read the files and the deploy's definition: it then awaits Redis, and calls from outside can
-- come before it ends. `@Synchronize` lets one build run at a time.
pub mod Currency
use mocko.Base.{Option, none, some}
use mocko.Definitions.Data.{MockoDefinition}
use mocko.Definitions.Merge.{merge_definitions}

pub record LoadedDefinitions (A : Type 0) : Type 0 where
  pub merged : MockoDefinition A
  pub file : MockoDefinition A

-- What a build under way has read.
pub record Build (A : Type 0) : Type 0 where
  pub file_definitions : MockoDefinition A
  pub deploy_definitions : Option (MockoDefinition A)

pub record DefinitionProvider (A : Type 0) : Type 0 where
  pub definitions : Option (LoadedDefinitions A)
  pub deploy_definition : Option (MockoDefinition A)
  pub building : Option (Build A)

module _ {A : Type 0} where
  unfoldable pub clear_definitions : DefinitionProvider A → DefinitionProvider A
  clear_definitions s = record s { definitions = none }

  unfoldable pub set_deploy_definition :
      MockoDefinition A → DefinitionProvider A → DefinitionProvider A
  unfolding clear_definitions
  set_deploy_definition definition s =
      clear_definitions (record s { deploy_definition = some definition })

  -- `buildDefinitions`, up to its call of Redis
  unfoldable pub start_build : MockoDefinition A → DefinitionProvider A → DefinitionProvider A
  start_build files s = record s {
    building = some (record { file_definitions = files; deploy_definitions = s.deploy_definition });
  }

  -- `getLoadedDefinitions`: with definitions that are loaded it builds none
  unfoldable pub get_loaded_definitions :
      MockoDefinition A → DefinitionProvider A → DefinitionProvider A
  unfolding start_build
  get_loaded_definitions files s = elim s.definitions [
    | none ↦ start_build files s
    | some loaded ↦ s
  ]

  abbrev pub loaded_from : Build A → Option (MockoDefinition A) → LoadedDefinitions A
  loaded_from build redis = record {
    merged = merge_definitions build.file_definitions redis build.deploy_definitions;
    file = build.file_definitions;
  }

  -- the rest of the build, and the assignment of what it built
  unfoldable pub finish_build :
      Build A → Option (MockoDefinition A) → DefinitionProvider A → DefinitionProvider A
  finish_build build redis s = record s {
    definitions = some (loaded_from build redis);
    building = none;
  }
