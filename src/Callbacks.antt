-- ===== src/Callbacks.antt =====
-- mocko-core/src/api/callback: callbacks that wait for their due time, and the scheduler.
pub mod Pending
pub mod MemoryRepository
pub mod RedisRepository
pub mod Scheduler
pub mod Service
pub mod Delivery
pub mod Trigger
