-- ===== src/Tests.antt =====
-- The theorems at concrete inputs.
pub mod Pending
pub mod Merging
pub mod Flags
pub mod Requests
pub mod Panel
pub mod Stores
pub mod Purging
pub mod Deliveries
pub mod Rivals
pub mod Hashes
pub mod Sources
pub mod Listing
pub mod Lasting
pub mod Checking
pub mod Editing
pub mod Working
pub mod Routing
pub mod Reaching
pub mod Addresses
