-- ===== src/Examples.antt =====
-- examples/session_store.py and examples/cache_layer.py: two programs that use a database.
pub mod Creation
pub mod Environment
pub mod Store
pub mod Backing
pub mod Prefix
pub mod Json
pub mod SessionStore
pub mod SessionScans
pub mod SessionLaws
pub mod Renewal
pub mod Listing
pub mod CacheLayer
pub mod CacheScans
pub mod CacheLaws
pub mod CacheReads
pub mod Requests
