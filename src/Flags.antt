-- ===== src/Flags.antt =====
-- mocko-core/src/api/flag and mocko-core/src/helpers/flag.ts: persisted values that mocks, tests and
-- the control panel read and write.
pub mod Keys
pub mod RedisRepository
pub mod MemoryRepository
pub mod Service
pub mod Api
