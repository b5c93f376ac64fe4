-- ===== src/Store.antt =====
-- internal/store
pub mod Db
pub mod Config
pub mod Order
pub mod Tokens
pub mod Requests
pub mod Grants
pub mod Users
pub mod Sessions
pub mod Actions
pub mod ActionLogs
pub mod RateLimits
pub mod Consistency
pub mod Listing
pub mod RequestLists
pub mod PeopleLists
