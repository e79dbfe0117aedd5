-- ===== src/Serving.antt =====
-- From the panel to the routes of the core over Redis: the mocks that mocko-control deploys, as
-- getRedisDefinitions of mocko-core/src/definitions/definition.provider.ts reads them and
-- validateDefinition of definitions/data/mocko-definition.ts checks them. JSON gives back what was
-- stored. The schema of Joi for a mock is an argument that throws a message; the hosts and the
-- callbacks of the definition are taken as read. What the panel deploys has no data.
pub mod Expected
pub mod Own
use mocko.Base.{Text, txt, Option, none, some, List, [], ◌∷◌, if◌then◌else◌}
use mocko.Base.Result.{Result, ok, err, ◌>>=◌}
use mocko.Definitions.Data.{Mock, Host, Callback, MockoDefinition}
use mocko.Definitions.Stanzas.{format_conflicts}
use mocko.Control.Mocks.{DeployMock}

-- the definition that Redis holds: its mocks as they are stored
pub record Stored : Type 0 where
  pub mocks : List DeployMock
  pub hosts : List Host
  pub callbacks : List Callback

-- `assertFormatDoesNotConflictWithContentType`
abbrev pub checked_format : Mock → Result Text Mock
unfolding format_conflicts
checked_format mock =
    if format_conflicts mock
    then err (txt "cannot use both 'format' and an explicit Content-Type header")
    else ok mock

module _ (schema : DeployMock → Result Text Mock) where
  -- `validateMock` on each, up to the first that throws
  unfoldable pub validate_mocks : List DeployMock → Result Text (List Mock)
  unfolding format_conflicts
  validate_mocks [] = ok []
  validate_mocks (stored ∷ rest) = do
    value ← schema stored
    mock ← checked_format value
    mocks ← validate_mocks rest
    ok (mock ∷ mocks)

  unfoldable pub get_redis_definitions :
      {A : Type 0} → Option Stored → Result Text (MockoDefinition A)
  unfolding validate_mocks
  get_redis_definitions none =
      ok (record { mocks = []; hosts = []; callbacks = []; data_blocks = none })
  get_redis_definitions (some stored) = do
    mocks ← validate_mocks stored.mocks
    ok (record {
      mocks = mocks;
      hosts = stored.hosts;
      callbacks = stored.callbacks;
      data_blocks = none;
    })
