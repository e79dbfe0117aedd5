-- ===== src/Definitions.antt =====
-- mocko-core/src/definitions: what mocks, hosts and callbacks are, and how the definitions from
-- files, Redis and deploys become one.
pub mod Data
pub mod Hosts
pub mod Records
pub mod Files
pub mod Stanzas
pub mod Config
pub mod Merge
pub mod Provider
