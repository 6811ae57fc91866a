-- ===== src/Error/Section.antt =====
-- The sections of the enumeration in include/uvhttp_error.h, which the categories of
-- src/uvhttp_error.c go by.
use uvhttp.Prelude.{ℕ, Bool, true, false, List, codes}
use uvhttp.Error.{
  Error, success, invalid_param, out_of_memory, not_found, already_exists, null_pointer,
  buffer_too_small, timeout, cancelled, not_supported, server_init, server_listen, server_stop,
  connection_limit, server_already_running, server_not_running, server_invalid_config,
  connection_init, connection_accept, connection_start, connection_close, connection_reset,
  connection_timeout, connection_refused, connection_broken, request_init, response_init,
  response_send, invalid_http_method, invalid_http_version, header_too_large, body_too_large,
  malformed_request, file_too_large, io_error, tls_init, tls_context, tls_handshake, tls_cert_load,
  tls_key_load, tls_verify_failed, tls_expired, tls_not_yet_valid, tls_cert, tls_key, tls_ca,
  tls_verify, tls_read, tls_write, tls_invalid_param, tls_memory, tls_not_implemented, tls_parse,
  tls_no_cert, tls_want_read, tls_want_write, router_init, router_add, route_not_found,
  route_already_exists, invalid_route_pattern, rate_limit_exceeded, allocator_init, allocator_set,
  allocator_not_initialized, websocket_init, websocket_handshake, websocket_frame,
  websocket_too_large, websocket_invalid_opcode, websocket_not_connected,
  websocket_already_connected, websocket_closed, config_parse, config_invalid,
  config_file_not_found, config_missing_required, middleware_stopped, middleware_chain_empty,
  middleware_invalid, log_init, log_write, log_file_open, log_not_initialized,
}

-- The section of the header that declares an error.
pub data Section : Type 0 where
  no_error general server connection exchange tls router rate_limit allocator websocket
        configuration middleware logging :
      Section

abbrev pub section_of : Error → Section
section_of success = no_error
section_of invalid_param = general
section_of out_of_memory = general
section_of not_found = general
section_of already_exists = general
section_of null_pointer = general
section_of buffer_too_small = general
section_of timeout = general
section_of cancelled = general
section_of not_supported = general
section_of server_init = server
section_of server_listen = server
section_of server_stop = server
section_of connection_limit = server
section_of server_already_running = server
section_of server_not_running = server
section_of server_invalid_config = server
section_of connection_init = connection
section_of connection_accept = connection
section_of connection_start = connection
section_of connection_close = connection
section_of connection_reset = connection
section_of connection_timeout = connection
section_of connection_refused = connection
section_of connection_broken = connection
section_of request_init = exchange
section_of response_init = exchange
section_of response_send = exchange
section_of invalid_http_method = exchange
section_of invalid_http_version = exchange
section_of header_too_large = exchange
section_of body_too_large = exchange
section_of malformed_request = exchange
section_of file_too_large = exchange
section_of io_error = exchange
section_of tls_init = tls
section_of tls_context = tls
section_of tls_handshake = tls
section_of tls_cert_load = tls
section_of tls_key_load = tls
section_of tls_verify_failed = tls
section_of tls_expired = tls
section_of tls_not_yet_valid = tls
section_of tls_cert = tls
section_of tls_key = tls
section_of tls_ca = tls
section_of tls_verify = tls
section_of tls_read = tls
section_of tls_write = tls
section_of tls_invalid_param = tls
section_of tls_memory = tls
section_of tls_not_implemented = tls
section_of tls_parse = tls
section_of tls_no_cert = tls
section_of tls_want_read = tls
section_of tls_want_write = tls
section_of router_init = router
section_of router_add = router
section_of route_not_found = router
section_of route_already_exists = router
section_of invalid_route_pattern = router
section_of rate_limit_exceeded = rate_limit
section_of allocator_init = allocator
section_of allocator_set = allocator
section_of allocator_not_initialized = allocator
section_of websocket_init = websocket
section_of websocket_handshake = websocket
section_of websocket_frame = websocket
section_of websocket_too_large = websocket
section_of websocket_invalid_opcode = websocket
section_of websocket_not_connected = websocket
section_of websocket_already_connected = websocket
section_of websocket_closed = websocket
section_of config_parse = configuration
section_of config_invalid = configuration
section_of config_file_not_found = configuration
section_of config_missing_required = configuration
section_of middleware_stopped = middleware
section_of middleware_chain_empty = middleware
section_of middleware_invalid = middleware
section_of log_init = logging
section_of log_write = logging
section_of log_file_open = logging
section_of log_not_initialized = logging

-- The category that is named after a section.
abbrev pub category_of_section : Section → List ℕ
category_of_section no_error = codes "Success"
category_of_section general = codes "General Error"
category_of_section server = codes "Server Error"
category_of_section connection = codes "Connection Error"
category_of_section exchange = codes "Request/Response Error"
category_of_section tls = codes "TLS Error"
category_of_section router = codes "Router Error"
category_of_section rate_limit = codes "Unknown Error"
category_of_section allocator = codes "Allocator Error"
category_of_section websocket = codes "WebSocket Error"
category_of_section configuration = codes "Configuration Error"
category_of_section middleware = codes "Middleware Error"
category_of_section logging = codes "Logging Error"

-- The errors whose code lies beyond the bounds of their section's category.
abbrev pub is_uncategorised : Error → Bool
is_uncategorised not_supported = true
is_uncategorised file_too_large = true
is_uncategorised io_error = true
is_uncategorised tls_cert = true
is_uncategorised tls_key = true
is_uncategorised tls_ca = true
is_uncategorised tls_verify = true
is_uncategorised tls_read = true
is_uncategorised tls_write = true
is_uncategorised tls_invalid_param = true
is_uncategorised tls_memory = true
is_uncategorised tls_not_implemented = true
is_uncategorised tls_parse = true
is_uncategorised tls_no_cert = true
is_uncategorised tls_want_read = true
is_uncategorised tls_want_write = true
is_uncategorised _ = false
