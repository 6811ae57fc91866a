-- ===== src/Error/Categories.antt =====
-- The categories of src/uvhttp_error.c against the sections of include/uvhttp_error.h.
use uvhttp.Prelude.{true, false, ◌≡◌, ◌⊎◌, inl, inr, refl, codes}
use uvhttp.Error.{
  Error, success, invalid_param, out_of_memory, not_found, already_exists, null_pointer,
  buffer_too_small, timeout, cancelled, not_supported, server_init, server_listen, server_stop,
  connection_limit, server_already_running, server_not_running, server_invalid_config,
  connection_init, connection_accept, connection_start, connection_close, connection_reset,
  connection_timeout, connection_refused, connection_broken, request_init, response_init,
  response_send, invalid_http_method, invalid_http_version, header_too_large, body_too_large,
  malformed_request, file_too_large, io_error, tls_init, tls_context, tls_handshake, tls_cert_load,
  tls_key_load, tls_verify_failed, tls_expired, tls_not_yet_valid, tls_cert, tls_key, tls_ca,
  tls_verify, tls_read, tls_write, tls_invalid_param, tls_memory, tls_not_implemented, tls_parse,
  tls_no_cert, tls_want_read, tls_want_write, router_init, router_add, route_not_found,
  route_already_exists, invalid_route_pattern, rate_limit_exceeded, allocator_init, allocator_set,
  allocator_not_initialized, websocket_init, websocket_handshake, websocket_frame,
  websocket_too_large, websocket_invalid_opcode, websocket_not_connected,
  websocket_already_connected, websocket_closed, config_parse, config_invalid,
  config_file_not_found, config_missing_required, middleware_stopped, middleware_chain_empty,
  middleware_invalid, log_init, log_write, log_file_open, log_not_initialized,
}
use uvhttp.Error.Table.{error_category_string, is_recoverable}
use uvhttp.Error.Section.{
  connection, exchange, tls, websocket, logging, section_of, category_of_section, is_uncategorised,
}

-- The category of an error is that of the section of the header that declares it, but for
-- NOT_SUPPORTED, FILE_TOO_LARGE, IO_ERROR, the TLS errors from TLS_CERT on and the two TLS states,
-- whose category is unknown.
pub error_category_string_section :
    (e : Error)
    → ((is_uncategorised e ≡ false)
        × (error_category_string e ≡ category_of_section (section_of e)))
      ⊎ ((is_uncategorised e ≡ true) × (error_category_string e ≡ codes "Unknown Error"))
unfolding error_category_string
error_category_string_section success = inl (refl, refl)
error_category_string_section invalid_param = inl (refl, refl)
error_category_string_section out_of_memory = inl (refl, refl)
error_category_string_section not_found = inl (refl, refl)
error_category_string_section already_exists = inl (refl, refl)
error_category_string_section null_pointer = inl (refl, refl)
error_category_string_section buffer_too_small = inl (refl, refl)
error_category_string_section timeout = inl (refl, refl)
error_category_string_section cancelled = inl (refl, refl)
error_category_string_section not_supported = inr (refl, refl)
error_category_string_section server_init = inl (refl, refl)
error_category_string_section server_listen = inl (refl, refl)
error_category_string_section server_stop = inl (refl, refl)
error_category_string_section connection_limit = inl (refl, refl)
error_category_string_section server_already_running = inl (refl, refl)
error_category_string_section server_not_running = inl (refl, refl)
error_category_string_section server_invalid_config = inl (refl, refl)
error_category_string_section connection_init = inl (refl, refl)
error_category_string_section connection_accept = inl (refl, refl)
error_category_string_section connection_start = inl (refl, refl)
error_category_string_section connection_close = inl (refl, refl)
error_category_string_section connection_reset = inl (refl, refl)
error_category_string_section connection_timeout = inl (refl, refl)
error_category_string_section connection_refused = inl (refl, refl)
error_category_string_section connection_broken = inl (refl, refl)
error_category_string_section request_init = inl (refl, refl)
error_category_string_section response_init = inl (refl, refl)
error_category_string_section response_send = inl (refl, refl)
error_category_string_section invalid_http_method = inl (refl, refl)
error_category_string_section invalid_http_version = inl (refl, refl)
error_category_string_section header_too_large = inl (refl, refl)
error_category_string_section body_too_large = inl (refl, refl)
error_category_string_section malformed_request = inl (refl, refl)
error_category_string_section file_too_large = inr (refl, refl)
error_category_string_section io_error = inr (refl, refl)
error_category_string_section tls_init = inl (refl, refl)
error_category_string_section tls_context = inl (refl, refl)
error_category_string_section tls_handshake = inl (refl, refl)
error_category_string_section tls_cert_load = inl (refl, refl)
error_category_string_section tls_key_load = inl (refl, refl)
error_category_string_section tls_verify_failed = inl (refl, refl)
error_category_string_section tls_expired = inl (refl, refl)
error_category_string_section tls_not_yet_valid = inl (refl, refl)
error_category_string_section tls_cert = inr (refl, refl)
error_category_string_section tls_key = inr (refl, refl)
error_category_string_section tls_ca = inr (refl, refl)
error_category_string_section tls_verify = inr (refl, refl)
error_category_string_section tls_read = inr (refl, refl)
error_category_string_section tls_write = inr (refl, refl)
error_category_string_section tls_invalid_param = inr (refl, refl)
error_category_string_section tls_memory = inr (refl, refl)
error_category_string_section tls_not_implemented = inr (refl, refl)
error_category_string_section tls_parse = inr (refl, refl)
error_category_string_section tls_no_cert = inr (refl, refl)
error_category_string_section tls_want_read = inr (refl, refl)
error_category_string_section tls_want_write = inr (refl, refl)
error_category_string_section router_init = inl (refl, refl)
error_category_string_section router_add = inl (refl, refl)
error_category_string_section route_not_found = inl (refl, refl)
error_category_string_section route_already_exists = inl (refl, refl)
error_category_string_section invalid_route_pattern = inl (refl, refl)
error_category_string_section rate_limit_exceeded = inl (refl, refl)
error_category_string_section allocator_init = inl (refl, refl)
error_category_string_section allocator_set = inl (refl, refl)
error_category_string_section allocator_not_initialized = inl (refl, refl)
error_category_string_section websocket_init = inl (refl, refl)
error_category_string_section websocket_handshake = inl (refl, refl)
error_category_string_section websocket_frame = inl (refl, refl)
error_category_string_section websocket_too_large = inl (refl, refl)
error_category_string_section websocket_invalid_opcode = inl (refl, refl)
error_category_string_section websocket_not_connected = inl (refl, refl)
error_category_string_section websocket_already_connected = inl (refl, refl)
error_category_string_section websocket_closed = inl (refl, refl)
error_category_string_section config_parse = inl (refl, refl)
error_category_string_section config_invalid = inl (refl, refl)
error_category_string_section config_file_not_found = inl (refl, refl)
error_category_string_section config_missing_required = inl (refl, refl)
error_category_string_section middleware_stopped = inl (refl, refl)
error_category_string_section middleware_chain_empty = inl (refl, refl)
error_category_string_section middleware_invalid = inl (refl, refl)
error_category_string_section log_init = inl (refl, refl)
error_category_string_section log_write = inl (refl, refl)
error_category_string_section log_file_open = inl (refl, refl)
error_category_string_section log_not_initialized = inl (refl, refl)

-- An error that is worth another try has a category, and is no general, server, router, allocator,
-- configuration or middleware error.
pub is_recoverable_section :
    (e : Error)
    → is_recoverable e ≡ true
    → (is_uncategorised e ≡ false)
      × ((section_of e ≡ connection)
          ⊎ ((section_of e ≡ exchange)
              ⊎ ((section_of e ≡ tls) ⊎ ((section_of e ≡ websocket) ⊎ (section_of e ≡ logging)))))
unfolding is_recoverable
is_recoverable_section connection_accept h = (refl, inl refl)
is_recoverable_section connection_start h = (refl, inl refl)
is_recoverable_section connection_reset h = (refl, inl refl)
is_recoverable_section connection_timeout h = (refl, inl refl)
is_recoverable_section connection_refused h = (refl, inl refl)
is_recoverable_section connection_broken h = (refl, inl refl)
is_recoverable_section response_send h = (refl, inr (inl refl))
is_recoverable_section tls_handshake h = (refl, inr (inr (inl refl)))
is_recoverable_section websocket_handshake h = (refl, inr (inr (inr (inl refl))))
is_recoverable_section websocket_frame h = (refl, inr (inr (inr (inl refl))))
is_recoverable_section websocket_too_large h = (refl, inr (inr (inr (inl refl))))
is_recoverable_section websocket_invalid_opcode h = (refl, inr (inr (inr (inl refl))))
is_recoverable_section log_write h = (refl, inr (inr (inr (inr refl))))
is_recoverable_section _ h = absurd cc
