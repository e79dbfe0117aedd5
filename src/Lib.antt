-- ===== src/Lib.antt =====
-- Mocko is a mock server with a control panel. This library models the parts of it that carry its own
-- logic, and proves what makes them correct.
--
-- The core, mocko-core/src, serves mocks. It reads definitions (mocks, hosts, callbacks, data) from
-- files, from Redis and from deploys, and merges them; the handler of a mock renders a template whose
-- helpers set the response, read and write flags, choose a host to proxy to, and trigger callbacks;
-- the scheduler keeps the callbacks that are pending and delivers them when they are due. The panel,
-- mocko-control, keeps its own items in a store, in memory or in Redis, and deploys them to the core.
--
--   Base           shared names, `Map` as a list of entries (Dict), texts as lists of UTF-16 units
--   Redis          the commands of Redis that the sources send, as interfaces with the documented
--                  behaviour for laws, and lists that fill them (Redis/Reference)
--   Callbacks      mocko-core/src/api/callback: Pending is callback.repository.ts, MemoryRepository is
--                  callback.memory-repository.ts, RedisRepository is callback.redis-repository.ts over
--                  any sorted set and hash, Scheduler is callback-scheduler.service.ts, Service is
--                  callback.service.ts, Delivery is callback-delivery.service.ts, Trigger is
--                  mocko-core/src/helpers/callback.ts
--   Definitions    mocko-core/src/definitions: Data and Hosts are definitions/data, Records is
--                  mocko-core/src/utils/utils.ts, Merge and Provider are definition.provider.ts: what
--                  it merges, and its cache; Files the ids and names of what a file defines,
--                  Stanzas and Config what its configuration defines
--   Flags          mocko-core/src/api/flag: MemoryRepository is flag.memory-repository.ts, Service is
--                  flag.service.ts, RedisRepository is flag.redis-repository.ts over any hashes
--                  that may expire (Redis/Expiring, filled by Redis/Lapsing), Keys is
--                  mocko-core/src/helpers/flag.ts with the check of keys in flag.controller.ts, Api is the
--                  requests of flag.controller.ts on single flags
--   Deploy         mocko-core/src/api/deploy/deploy.service.ts
--   Response       mocko-core/src/helpers/response.ts and mocko-core/src/api/proxy
--   Mocks          mocko-core/src/api/mock/mock.handler.ts
--   Routes         mocko-core/src/api/mock/mock.service.ts and mocko-core/src/route-registrar.ts
--   Diagnostics    mocko-core/src/definitions/diagnostics.ts
--   Validation     mocko-core/src/validate.ts, whose checks of mocks, hosts and callbacks are in
--                  Diagnostics/Reports
--   Configuration  mocko-core/src/config/config.service.ts and mocko-control/lib/config/store-config.ts
--   Sdk            FlagDefs is mocko-sdk/src/flags/runtime-flag-def.ts; Transport is
--                  mocko-sdk/src/transport.ts and http.ts over any server, and Transport/Serve the
--                  core as one, with the routes of mocko-core/src/api/flag/flag.router.ts
--   Control        mocko-control/lib: Store is the interface that store/store.ts asks of one kind of
--                  own items, Store/Memory and Store/Redis fill it, Store/Agreement compares them;
--                  Hosts is host/host.service.ts over any such store; Slugs is utils/slugs.ts;
--                  Operations is management/operation.service.ts, with the steps of its background
--                  calls in Operations/Jobs and the transition to EXECUTING cut at its awaits in
--                  Operations/Overlap; OperationFields is the hash of
--                  an operation in store/redis-store.ts, FlagFields that of a flag; Scan, FlagList,
--                  FlagPurge, FlagMigration and V1Purge are its loops over the keys of SCAN;
--                  Conflicts is conflict/conflicts.ts with the keys of hosts, callbacks and mocks,
--                  and Conflicts/Display what the client is shown of them;
--                  Mocks is mock/mock.service.ts and mock/mock.mapper.ts, V1Mocks is
--                  management/v1-mock.mapper.ts; Callbacks is callback/callback.service.ts;
--                  Templates is what the two services do with the errors of the template parser;
--                  Filter is mock/filter.ts, callback/filter.ts, callback/pending-sort.ts and
--                  utils/labels.ts; ListUrl is mock/mock-list-url.ts, callback/callback-list-url.ts
--                  and flag/flag-list-url.ts
--   Serving        the way of the own mocks of the panel over Redis to the routes of the core:
--                  getRedisDefinitions of definition.provider.ts with Control/Mocks, Definitions/Merge
--                  and Routes
--   Tests          the theorems at concrete inputs
--
-- A class is a record of its fields, a method a function from the state to its result and the state
-- after it, an error a value (Base/Result). An async method over a state in memory runs without a
-- break up to its awaits: the scheduler's methods are cut at theirs, and Callbacks/Scheduler/Steps
-- lets the pieces interleave in any order with the calls of the service. `claimDue` awaits only its
-- own `list`, and is one step. A method of the Redis repository takes the state that its `findMember`
-- read beside the one at its next command. Recursion is structural but for the loops over SCAN, whose
-- fuel is the number of calls: as many as SCAN has pages are enough; for the loops that cut keys into
-- batches, where the number of keys is enough; and for the batches of LPOP, where one more than the
-- batches is.
--
-- A deploy of the panel whose call of the core fails is only logged: the field `gets_through` of a
-- panel says whether the call succeeds, and where it does not the core keeps what it had.
--
-- The clock, new ids and `uuidv5`, the template engine and its parser, the HTTP client, Hapi's server,
-- JSON, `Number`, the printing of numbers and `localeCompare` are arguments. Times, lifetimes and
-- delays are whole numbers of milliseconds. Changes of case and white space are those of ASCII. The
-- keys of a plain object keep their insertion order here, which JavaScript changes for keys
-- that look like integers, and `__proto__` is a key like any other.
--
-- Not modelled: the routers but that of flags, the server and logging, which are glue; the schemas of
-- Joi and zod; the client of Redis; HCL and the reading of files; the user interface; the command line.
pub mod Base
pub mod Redis
pub mod Callbacks
pub mod Definitions
pub mod Flags
pub mod Deploy
pub mod Response
pub mod Mocks
pub mod Control
pub mod Diagnostics
pub mod Routes
pub mod Validation
pub mod Sdk
pub mod Serving
pub mod Configuration
pub mod Tests
