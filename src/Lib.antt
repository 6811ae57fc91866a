-- ===== src/Lib.antt =====
-- Verification library of uvhttp, an HTTP and WebSocket server in C on libuv.
--
-- A server reads requests from its connections, finds the handler of a request in a router, and
-- hands a connection over to the WebSocket code when a request asks for that. The library models
-- the parts that decide: what is done for which bytes, for which path, with which state.
--
-- WebSocket: src/uvhttp_websocket.c. `Frame` has uvhttp_ws_parse_frame_header (parse_frame_header),
-- uvhttp_ws_apply_mask (apply_mask) and uvhttp_ws_build_frame (build_frame); `Connection` the
-- state of a connection, uvhttp_ws_send_frame (send_frame) and uvhttp_ws_close (close); `Fragments`
-- uvhttp_ws_fragment_append and the state machine for data frames; `Receive` the other handlers, the
-- loop over the buffered frames and the growth of the receive buffer (uvhttp_ws_process_data).
-- Router: src/uvhttp_router.c. `Method` has the conversions of methods; `Array` the search in the
-- array of routes; `Trie` the node pool, find_or_create_child, the insertion of a path and
-- match_route_node; `Table` the router, which moves from the array to the trie (migrate_to_trie),
-- uvhttp_router_add_route_method, uvhttp_router_find_handler and uvhttp_router_match; `Params` has
-- uvhttp_parse_path_params.
-- GzipCache: src/uvhttp_gzip_cache.c, the cache of compressed bodies: the slots, the eviction of the
-- least recently used one (evict_one), uvhttp_gzip_cache_find, uvhttp_gzip_cache_put and the limits.
-- Validation: include/uvhttp_validation.h, the checks of paths, query strings and headers.
-- LruCache: the list of src/uvhttp_lru_cache.c, in a heap of entries with pointers to both neighbours:
-- uvhttp_lru_cache_move_to_head, uvhttp_lru_cache_remove_tail,
-- uvhttp_lru_cache_remove_lowest_priority and what uvhttp_lru_cache_cleanup_expired does to the list.
-- RouterCache: src/uvhttp_router_cache.c, the router that a build option puts in the place of the
-- other: `Probe` the order of the open addressing, `Table` the hash table with its resize and its
-- searches, `Template` the routes with parameters, `Routes` the router on top of them. The hash
-- function XXH64 is a parameter.
-- Response: src/uvhttp_response.c. `Response` has the state and the setters, `Headers` the text of
-- the head (build_response_headers), `Gzip` uvhttp_compress_gzip, `Build`
-- uvhttp_response_build_data, which asks and fills the gzip cache of GzipCache, and
-- uvhttp_response_send; `Compressible` the choice of what to compress. zlib's deflate and crc32,
-- the hash of a body and what the connection does with the bytes are parameters.
-- Request: src/uvhttp_request.c. `Request` has the state and the functions that the parser llhttp calls;
-- `Headers`, `Body`, `Parsed` and
-- `Pieces` what they store, `Query` the readers of the URL and of the client's
-- address, `Complete` on_message_complete, which takes a request to the rate limit of Server, the
-- protocols of Upgrade, the router and the static files, or answers it. Detectors and handlers of
-- the application and what the static files return are parameters.
-- Server: the rate limit of src/uvhttp_server.c. Upgrade: the registry of
-- src/uvhttp_protocol_upgrade.c.
-- Error: the codes of include/uvhttp_error.h, and the categories (uvhttp_error_category_string) and
-- the table of src/uvhttp_error.c of what is worth another try (`Table`), against the sections of the
-- header (`Section`, `Categories`). Prelude: what the modules share.
--
-- Bytes are natural numbers, a buffer the list of its bytes, a C string the list of its bytes
-- before the 0. `size_t` has 64 bits; where the code guards a sum against SIZE_MAX the guard is in
-- the model, and the size of a frame that is built wraps around at 2^64. Allocations succeed, and arguments are no NULL pointers. The network, the random generator
-- and the clock are arguments. Callbacks are events and do not change the state that they are
-- called from.
--
-- The doubling loops run on fuel: 65 rounds for a buffer, since after 64 doublings a size that is
-- not 0 passes SIZE_MAX / 2 and the code itself stops; for the pool of nodes as many rounds as
-- there are nodes in use; for a probe of the hash table as many rounds as there are slots; for
-- the loop over a query as many rounds as it has bytes; for the digits of a number one round more than
-- the number. The loop over buffered frames runs on one round more than there are
-- bytes buffered, since each frame takes bytes from the buffer; running out of fuel is none, a result
-- of its own.
--
-- Faults are results of their own too: registering a route is none where it uses the array of routes
-- that a failed migration has freed, and a search that reads it or writes behind the parameters of a
-- match is a fault.
--
-- Not modelled: sockets, libuv, TLS and the HTTP parser (llhttp), which are other programs' code; the
-- WebSocket handshake (base64 and SHA-1 of mbedtls), the connections and the server around them, the
-- static files, the configuration and the hash table of the LRU cache.
mod Prelude
pub mod Error
pub mod WebSocket
pub mod Router
pub mod GzipCache
pub mod Validation
pub mod RouterCache
pub mod Response
pub mod Request
pub mod Server
pub mod Upgrade
pub mod LruCache
