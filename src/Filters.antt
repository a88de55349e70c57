-- ===== src/Filters.antt =====
-- rpc/api/filters: the search for logs, over one block or over a range of blocks.
pub mod Matching
pub mod Search
pub mod Bloom
pub mod Ranges
pub mod Api
pub mod Polling
pub mod Events
pub mod Broadcast
pub mod Criteria
pub mod Fuel
pub mod Requests
