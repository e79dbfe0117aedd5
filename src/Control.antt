-- ===== src/Control.antt =====
-- mocko-control/lib: the control panel's server, over its own store.
pub mod Store
pub mod Hosts
pub mod Slugs
pub mod Scan
pub mod FlagList
pub mod FlagFields
pub mod Filter
pub mod ListUrl
pub mod Templates
pub mod Mocks
pub mod V1Mocks
pub mod Callbacks
pub mod FlagPurge
pub mod FlagMigration
pub mod V1Purge
pub mod OperationFields
pub mod Conflicts
pub mod Operations
