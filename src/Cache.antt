-- ===== src/Cache.antt =====
-- pkg/cache: the byte budget, the object cache and the listing cache.
pub mod Budget
pub mod Shard
pub mod Manager
pub mod Pool
pub mod Calls
pub mod Flight
pub mod ListCache
pub mod SysMem
