-- ===== src/Error/Table.antt =====
-- The codes of the errors in include/uvhttp_error.h, and in src/uvhttp_error.c their categories and
-- which of them are worth another try.
use uvhttp.Prelude.{ℕ, zero, suc, Bool, true, false, ◌&&◌, List, if◌then◌else◌, leb, codes}
use uvhttp.Error.{
  Error, success, invalid_param, out_of_memory, not_found, already_exists, null_pointer,
  buffer_too_small, timeout, cancelled, not_supported, server_init, server_listen, server_stop,
  connection_limit, server_already_running, server_not_running, server_invalid_config,
  connection_init, connection_accept, connection_start, connection_close, connection_reset,
  connection_timeout, connection_refused, connection_broken, request_init, response_init,
  response_send, invalid_http_method, invalid_http_version, header_too_large, body_too_large,
  malformed_request, file_too_large, io_error, tls_init, tls_context, tls_handshake, tls_cert_load,
  tls_key_load, tls_verify_failed, tls_expired, tls_not_yet_valid, tls_cert, tls_key, tls_ca,
  tls_verify, tls_read, tls_write, tls_invalid_param, tls_memory, tls_not_implemented, tls_parse,
  tls_no_cert, tls_want_read, tls_want_write, router_init, router_add, route_not_found,
  route_already_exists, invalid_route_pattern, rate_limit_exceeded, allocator_init, allocator_set,
  allocator_not_initialized, websocket_init, websocket_handshake, websocket_frame,
  websocket_too_large, websocket_invalid_opcode, websocket_not_connected,
  websocket_already_connected, websocket_closed, config_parse, config_invalid,
  config_file_not_found, config_missing_required, middleware_stopped, middleware_chain_empty,
  middleware_invalid, log_init, log_write, log_file_open, log_not_initialized,
}

-- Integers.
pub data ℤ : Type 0 where
  pos : ℕ → ℤ
  negsuc : ℕ → ℤ

abbrev pub minus : ℕ → ℤ
minus zero = pos 0
minus (suc n) = negsuc n

-- The value of an enumerator.
unfoldable pub error_code : Error → ℤ
error_code success = pos 0
error_code invalid_param = minus 1
error_code out_of_memory = minus 2
error_code not_found = minus 3
error_code already_exists = minus 4
error_code null_pointer = minus 5
error_code buffer_too_small = minus 6
error_code timeout = minus 7
error_code cancelled = minus 8
error_code not_supported = minus 9
error_code server_init = minus 100
error_code server_listen = minus 101
error_code server_stop = minus 102
error_code connection_limit = minus 103
error_code server_already_running = minus 104
error_code server_not_running = minus 105
error_code server_invalid_config = minus 106
error_code connection_init = minus 200
error_code connection_accept = minus 201
error_code connection_start = minus 202
error_code connection_close = minus 203
error_code connection_reset = minus 204
error_code connection_timeout = minus 205
error_code connection_refused = minus 206
error_code connection_broken = minus 207
error_code request_init = minus 300
error_code response_init = minus 301
error_code response_send = minus 302
error_code invalid_http_method = minus 303
error_code invalid_http_version = minus 304
error_code header_too_large = minus 305
error_code body_too_large = minus 306
error_code malformed_request = minus 307
error_code file_too_large = minus 308
error_code io_error = minus 309
error_code tls_init = minus 400
error_code tls_context = minus 401
error_code tls_handshake = minus 402
error_code tls_cert_load = minus 403
error_code tls_key_load = minus 404
error_code tls_verify_failed = minus 405
error_code tls_expired = minus 406
error_code tls_not_yet_valid = minus 407
error_code tls_cert = minus 408
error_code tls_key = minus 409
error_code tls_ca = minus 410
error_code tls_verify = minus 411
error_code tls_read = minus 412
error_code tls_write = minus 413
error_code tls_invalid_param = minus 414
error_code tls_memory = minus 415
error_code tls_not_implemented = minus 416
error_code tls_parse = minus 417
error_code tls_no_cert = minus 418
error_code tls_want_read = pos 1
error_code tls_want_write = pos 2
error_code router_init = minus 500
error_code router_add = minus 501
error_code route_not_found = minus 502
error_code route_already_exists = minus 503
error_code invalid_route_pattern = minus 504
error_code rate_limit_exceeded = minus 550
error_code allocator_init = minus 600
error_code allocator_set = minus 601
error_code allocator_not_initialized = minus 602
error_code websocket_init = minus 700
error_code websocket_handshake = minus 701
error_code websocket_frame = minus 702
error_code websocket_too_large = minus 703
error_code websocket_invalid_opcode = minus 704
error_code websocket_not_connected = minus 705
error_code websocket_already_connected = minus 706
error_code websocket_closed = minus 707
error_code config_parse = minus 900
error_code config_invalid = minus 901
error_code config_file_not_found = minus 902
error_code config_missing_required = minus 903
error_code middleware_stopped = minus 1000
error_code middleware_chain_empty = minus 1001
error_code middleware_invalid = minus 1002
error_code log_init = minus 1100
error_code log_write = minus 1101
error_code log_file_open = minus 1102
error_code log_not_initialized = minus 1103

-- `error >= -low && error <= -high`, where these are not 0.
abbrev pub in_band : ℕ → ℕ → ℤ → Bool
in_band low high (pos n) = false
in_band low high (negsuc n) = leb (suc n) low && leb high (suc n)

abbrev pub is_zero : ℤ → Bool
is_zero (pos zero) = true
is_zero _ = false

-- `uvhttp_error_category_string` on the value of a code.
abbrev pub category_of_code : ℤ → List ℕ
category_of_code e =
    if is_zero e
    then codes "Success"
    else if in_band 8 1 e
    then codes "General Error"
    else if in_band 106 100 e
    then codes "Server Error"
    else if in_band 207 200 e
    then codes "Connection Error"
    else if in_band 307 300 e
    then codes "Request/Response Error"
    else if in_band 407 400 e
    then codes "TLS Error"
    else if in_band 504 500 e
    then codes "Router Error"
    else if in_band 602 600 e
    then codes "Allocator Error"
    else if in_band 707 700 e
    then codes "WebSocket Error"
    else if in_band 805 800 e
    then codes "HTTP/2 Error"
    else if in_band 903 900 e
    then codes "Configuration Error"
    else if in_band 1003 1000 e
    then codes "Middleware Error"
    else if in_band 1103 1100 e
    then codes "Logging Error"
    else codes "Unknown Error"

-- `uvhttp_error_category_string`
unfoldable pub error_category_string : Error → List ℕ
unfolding error_code
error_category_string e = category_of_code (error_code e)

-- `uvhttp_error_is_recoverable`
unfoldable pub is_recoverable : Error → Bool
is_recoverable connection_accept = true
is_recoverable connection_start = true
is_recoverable connection_reset = true
is_recoverable connection_timeout = true
is_recoverable connection_refused = true
is_recoverable connection_broken = true
is_recoverable response_send = true
is_recoverable tls_handshake = true
is_recoverable websocket_handshake = true
is_recoverable websocket_frame = true
is_recoverable websocket_too_large = true
is_recoverable websocket_invalid_opcode = true
is_recoverable log_write = true
is_recoverable _ = false
