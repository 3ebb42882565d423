-- ===== src/Constants.antt =====
-- The protocol numbers, time limits and upper bounds of crates/rfrp-common/src/constants.rs.
-- Times are in seconds unless the name says otherwise.
use rfrpv.Prelude.{ℕ, ◌*◌, ◌^◌}

abbrev pub protocol_version : ℕ
protocol_version = 2

abbrev pub frame_header_len : ℕ
frame_header_len = 6

abbrev pub frame_max_payload : ℕ
frame_max_payload = 16 * 1024 * 1024

abbrev pub work_id_pool_reserved : ℕ
work_id_pool_reserved = 0

abbrev pub connect_timeout : ℕ
connect_timeout = 10

abbrev pub login_timeout : ℕ
login_timeout = 10

abbrev pub new_proxy_timeout : ℕ
new_proxy_timeout = 10

abbrev pub first_frame_timeout : ℕ
first_frame_timeout = 10

abbrev pub tls_handshake_timeout : ℕ
tls_handshake_timeout = 10

abbrev pub http_head_timeout : ℕ
http_head_timeout = 10

abbrev pub heartbeat_interval : ℕ
heartbeat_interval = 30

abbrev pub heartbeat_timeout : ℕ
heartbeat_timeout = 10

abbrev pub heartbeat_min_secs : ℕ
heartbeat_min_secs = 1

abbrev pub heartbeat_max_secs : ℕ
heartbeat_max_secs = 3600

abbrev pub work_conn_timeout_rfrps : ℕ
work_conn_timeout_rfrps = 10

abbrev pub work_conn_request_interval_ms : ℕ
work_conn_request_interval_ms = 3000

abbrev pub work_conn_timeout_rfrpc : ℕ
work_conn_timeout_rfrpc = 8

abbrev pub udp_session_timeout : ℕ
udp_session_timeout = 300

abbrev pub udp_session_timeout_min_secs : ℕ
udp_session_timeout_min_secs = 1

abbrev pub udp_session_timeout_max_secs : ℕ
udp_session_timeout_max_secs = 24 * 60 * 60

abbrev pub max_consecutive_accept_errors : ℕ
max_consecutive_accept_errors = 60

abbrev pub server_alive_log_interval : ℕ
server_alive_log_interval = 300

abbrev pub graceful_shutdown_timeout : ℕ
graceful_shutdown_timeout = 30

abbrev pub graceful_shutdown_timeout_max_secs : ℕ
graceful_shutdown_timeout_max_secs = 3600

abbrev pub tcp_keepalive_interval : ℕ
tcp_keepalive_interval = 30

abbrev pub tcp_keepalive_probe_interval : ℕ
tcp_keepalive_probe_interval = 5

abbrev pub proxy_register_retry_initial : ℕ
proxy_register_retry_initial = 2

abbrev pub proxy_register_retry_max : ℕ
proxy_register_retry_max = 8

abbrev pub proxy_register_retry_max_delay : ℕ
proxy_register_retry_max_delay = 30

abbrev pub proxy_register_retry_persistent_delay_secs : ℕ
proxy_register_retry_persistent_delay_secs = 30

abbrev pub proxy_register_retry_persistent_max : ℕ
proxy_register_retry_persistent_max = 20

abbrev pub reconnect_backoff_initial : ℕ
reconnect_backoff_initial = 1

abbrev pub reconnect_backoff_max : ℕ
reconnect_backoff_max = 30

abbrev pub max_proxies_per_session : ℕ
max_proxies_per_session = 128

abbrev pub max_sessions : ℕ
max_sessions = 1024

abbrev pub max_sessions_per_ip : ℕ
max_sessions_per_ip = 256

abbrev pub login_failure_limit : ℕ
login_failure_limit = 10

abbrev pub login_failure_window : ℕ
login_failure_window = 60

abbrev pub min_stable_connection_secs : ℕ
min_stable_connection_secs = 60

abbrev pub max_custom_domains : ℕ
max_custom_domains = 16

abbrev pub pool_size_default : ℕ
pool_size_default = 1

abbrev pub pool_size_warn_threshold : ℕ
pool_size_warn_threshold = 16

abbrev pub max_pooled_work_conns_per_proxy : ℕ
max_pooled_work_conns_per_proxy = 32

abbrev pub max_pending_udp_sessions : ℕ
max_pending_udp_sessions = 256

abbrev pub max_udp_packet_size : ℕ
max_udp_packet_size = 65507

abbrev pub udp_session_queue_depth : ℕ
udp_session_queue_depth = 64

abbrev pub udp_recv_batch : ℕ
udp_recv_batch = 64

abbrev pub udp_write_batch : ℕ
udp_write_batch = 32

abbrev pub udp_read_batch : ℕ
udp_read_batch = 32

abbrev pub udp_socket_recv_buf_bytes : ℕ
udp_socket_recv_buf_bytes = 2 ^ 20

abbrev pub bridge_buf_size : ℕ
bridge_buf_size = 32 * 1024

abbrev pub max_active_connections : ℕ
max_active_connections = 65536

abbrev pub max_run_id_len : ℕ
max_run_id_len = 64

abbrev pub max_token_len : ℕ
max_token_len = 256

abbrev pub max_proxy_name_len : ℕ
max_proxy_name_len = 64

abbrev pub max_domain_len : ℕ
max_domain_len = 253
