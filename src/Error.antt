-- ===== src/Error.antt =====
-- The error codes of include/uvhttp_error.h, and results that carry them.
pub mod Table
pub mod Section
pub mod Categories
mod Tests

-- `uvhttp_error_t`; `success` is UVHTTP_OK.
pub data Error : Type 0 where
  success invalid_param out_of_memory not_found already_exists null_pointer buffer_too_small timeout
        cancelled not_supported server_init server_listen server_stop connection_limit
        server_already_running server_not_running server_invalid_config connection_init
        connection_accept connection_start connection_close connection_reset connection_timeout
        connection_refused connection_broken request_init response_init response_send
        invalid_http_method invalid_http_version header_too_large body_too_large malformed_request
        file_too_large io_error tls_init tls_context tls_handshake tls_cert_load tls_key_load
        tls_verify_failed tls_expired tls_not_yet_valid tls_cert tls_key tls_ca tls_verify tls_read
        tls_write tls_invalid_param tls_memory tls_not_implemented tls_parse tls_no_cert
        tls_want_read tls_want_write router_init router_add route_not_found route_already_exists
        invalid_route_pattern rate_limit_exceeded allocator_init allocator_set
        allocator_not_initialized websocket_init websocket_handshake websocket_frame
        websocket_too_large websocket_invalid_opcode websocket_not_connected
        websocket_already_connected websocket_closed config_parse config_invalid
        config_file_not_found config_missing_required middleware_stopped middleware_chain_empty
        middleware_invalid log_init log_write log_file_open log_not_initialized :
      Error

pub data Result {ℓ} (A : Type ℓ) : Type ℓ where
  ok : A → Result A
  err : Error → Result A
