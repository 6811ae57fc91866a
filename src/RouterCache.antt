-- ===== src/RouterCache.antt =====
-- src/uvhttp_router_cache.c, the router that a build option puts in the place of
-- src/uvhttp_router.c: a hash table with open addressing.
pub mod Probe
pub mod Template
pub mod Table
pub mod Routes
mod Tests
