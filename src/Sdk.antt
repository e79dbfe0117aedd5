-- ===== src/Sdk.antt =====
-- mocko-sdk/src: the client of the core's API for tests.
pub mod FlagDefs
pub mod Transport
