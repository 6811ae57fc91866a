-- ===== src/Router.antt =====
-- src/uvhttp_router.c and include/uvhttp_router.h: the methods (`Method`), the array of routes
-- (`Array`), the trie in its node pool (`Trie`), and the router that switches from one to the
-- other (`Table`).
pub mod Method
pub mod Array
pub mod Trie
pub mod Table
pub mod Params
mod Tests
