-- ===== src/Config.antt =====
-- pkg/config/config.go: the configuration, and how it is loaded from the environment. A duration is a
-- number of nanoseconds.
pub mod Env
pub mod Validate
pub mod Sound
use content_storage_server.Prelude.{Bool, true, false, List, [], ◌∷◌, Bytes, bytes}
use content_storage_server.Prelude.Int64.{Int64}
use content_storage_server.Prelude.Assoc.{Assoc}
use content_storage_server.Config.Env.{
  Environment, Parsers, env, env_int, env_int64, env_bool, env_duration, env_string_slice,
  env_string_map, env_float64,
}

pub record Config (F : Type 0) : Type 0 where
  pub port : Bytes
  pub host : Bytes
  pub read_timeout : Int64
  pub write_timeout : Int64
  pub max_conns_per_host : Int64
  pub allow_query_param_auth : Bool
  pub enable_tls : Bool
  pub tls_port : Bytes
  pub tls_cache_dir : Bytes
  pub tls_hosts : List Bytes
  pub enable_https_only : Bool
  pub data_dir : Bytes
  pub backup_dir : Bytes
  pub backup_interval : Int64
  pub max_backups : Int64
  pub enable_adaptive_gc : Bool
  pub gc_interval : Int64
  pub gc_threshold : F
  pub enable_emergency_recovery : Bool
  pub performance_mode : Bool
  pub cache_size : Int64
  pub enable_cache_warmup : Bool
  pub write_queue_size : Int64
  pub write_queue_batch_size : Int64
  pub write_queue_batch_timeout : Int64
  pub write_queue_max_multiplier : Int64
  pub api_key : Bytes
  pub enable_auth : Bool
  pub allowed_origins : List Bytes
  pub allowed_ips : List Bytes
  pub max_id_length : Int64
  pub max_type_length : Int64
  pub max_pagination_limit : Int64
  pub max_access_limit : Int64
  pub max_content_size : Int64
  pub request_timeout : Int64
  pub shutdown_timeout : Int64
  pub throttle_limit : Int64
  pub throttle_backlog_limit : Int64
  pub throttle_backlog_timeout : Int64
  pub api_rate_limit_period : Int64
  pub api_rate_limit_burst : Int64
  pub echo_rate_limit : F
  pub echo_burst_limit : Int64
  pub echo_rate_limit_expires_in : Int64
  pub enable_compression : Bool
  pub compression_level : Int64
  pub compression_types : List Bytes
  pub enable_profiler : Bool
  pub enable_swagger : Bool
  pub require_auth_for_ui : Bool
  pub min_api_key_length : Int64
  pub allowed_content_types : List Bytes
  pub security_headers : Assoc Bytes
  pub enable_request_logging : Bool
  pub enable_management_logging : Bool
  pub enable_security_logging : Bool
  pub enable_critical_logging : Bool
  pub suppress_crud_logging : Bool
  pub enable_error_logging : Bool
  pub enable_warn_logging : Bool
  pub enable_validation_logging : Bool

abbrev pub compression_defaults : List Bytes
compression_defaults =
    bytes "text/html"
    ∷ bytes "text/css"
    ∷ bytes "text/javascript"
    ∷ bytes "application/javascript"
    ∷ bytes "application/json"
    ∷ bytes "application/xml"
    ∷ bytes "text/xml"
    ∷ bytes "text/plain"
    ∷ []

abbrev pub header_defaults : Assoc Bytes
header_defaults =
    (bytes "X-Content-Type-Options", bytes "nosniff")
    ∷ (bytes "X-Frame-Options", bytes "DENY")
    ∷ (bytes "X-XSS-Protection", bytes "1; mode=block")
    ∷ (
      bytes "Content-Security-Policy",
      bytes
          "default-src 'self'; script-src 'self' 'unsafe-inline'; style-src 'self' 'unsafe-inline'",
    )
    ∷ []

-- `Load`.
unfoldable pub load : {F : Type 0} → Parsers F → Environment → Config F
unfolding env env_int env_int64 env_bool env_duration env_string_slice env_string_map env_float64
load p lookup = record {
  port = env lookup (bytes "PORT") (bytes "8081");
  host = env lookup (bytes "HOST") (bytes "0.0.0.0");
  read_timeout = env_duration p lookup (bytes "READ_TIMEOUT") 30000000000;
  write_timeout = env_duration p lookup (bytes "WRITE_TIMEOUT") 30000000000;
  max_conns_per_host = env_int lookup (bytes "MAX_CONNS_PER_HOST") 100;
  allow_query_param_auth = env_bool lookup (bytes "ALLOW_QUERY_PARAM_AUTH") false;
  enable_tls = env_bool lookup (bytes "ENABLE_TLS") false;
  tls_port = env lookup (bytes "TLS_PORT") (bytes "443");
  tls_cache_dir = env lookup (bytes "TLS_CACHE_DIR") (bytes "./certs");
  tls_hosts = env_string_slice lookup (bytes "TLS_HOSTS") [];
  enable_https_only = env_bool lookup (bytes "ENABLE_HTTPS_ONLY") false;
  data_dir = env lookup (bytes "DATA_DIR") (bytes "./data");
  backup_dir = env lookup (bytes "BACKUP_DIR") (bytes "./backups");
  backup_interval = env_duration p lookup (bytes "BACKUP_INTERVAL") 21600000000000;
  max_backups = env_int lookup (bytes "MAX_BACKUPS") 7;
  enable_adaptive_gc = env_bool lookup (bytes "ENABLE_ADAPTIVE_GC") false;
  gc_interval = env_duration p lookup (bytes "GC_INTERVAL") 300000000000;
  gc_threshold = env_float64 p lookup (bytes "GC_THRESHOLD") (p.ratio 3 10);
  enable_emergency_recovery = env_bool lookup (bytes "ENABLE_EMERGENCY_RECOVERY") false;
  performance_mode = env_bool lookup (bytes "PERFORMANCE_MODE") true;
  cache_size = env_int64 lookup (bytes "CACHE_SIZE") 134217728;
  enable_cache_warmup = env_bool lookup (bytes "ENABLE_CACHE_WARMUP") true;
  write_queue_size = env_int lookup (bytes "WRITE_QUEUE_SIZE") 10000;
  write_queue_batch_size = env_int lookup (bytes "WRITE_QUEUE_BATCH_SIZE") 100;
  write_queue_batch_timeout = env_duration p lookup (bytes "WRITE_QUEUE_BATCH_TIMEOUT") 5000000;
  write_queue_max_multiplier = env_int lookup (bytes "WRITE_QUEUE_MAX_MULTIPLIER") 10;
  api_key = env lookup (bytes "API_KEY") [];
  enable_auth = env_bool lookup (bytes "ENABLE_AUTH") true;
  allowed_origins = env_string_slice lookup (bytes "ALLOWED_ORIGINS") [];
  allowed_ips = env_string_slice lookup (bytes "ALLOWED_IPS") [];
  max_id_length = env_int lookup (bytes "MAX_ID_LENGTH") 255;
  max_type_length = env_int lookup (bytes "MAX_TYPE_LENGTH") 100;
  max_pagination_limit = env_int lookup (bytes "MAX_PAGINATION_LIMIT") 1000;
  max_access_limit = env_int lookup (bytes "MAX_ACCESS_LIMIT") 1000000;
  max_content_size = env_int64 lookup (bytes "MAX_CONTENT_SIZE") 10485760;
  request_timeout = env_duration p lookup (bytes "REQUEST_TIMEOUT") 30000000000;
  shutdown_timeout = env_duration p lookup (bytes "SHUTDOWN_TIMEOUT") 30000000000;
  throttle_limit = env_int lookup (bytes "THROTTLE_LIMIT") 1000;
  throttle_backlog_limit = env_int lookup (bytes "THROTTLE_BACKLOG_LIMIT") 50;
  throttle_backlog_timeout = env_duration p lookup (bytes "THROTTLE_BACKLOG_TIMEOUT") 30000000000;
  api_rate_limit_period = env_duration p lookup (bytes "API_RATE_LIMIT_PERIOD") 3600000000000;
  api_rate_limit_burst = env_int lookup (bytes "API_RATE_LIMIT_BURST") 10;
  echo_rate_limit = env_float64 p lookup (bytes "ECHO_RATE_LIMIT") (p.ratio 100 1);
  echo_burst_limit = env_int lookup (bytes "ECHO_BURST_LIMIT") 200;
  echo_rate_limit_expires_in =
      env_duration p lookup (bytes "ECHO_RATE_LIMIT_EXPIRES_IN") 180000000000;
  enable_compression = env_bool lookup (bytes "ENABLE_COMPRESSION") true;
  compression_level = env_int lookup (bytes "COMPRESSION_LEVEL") 5;
  compression_types = env_string_slice lookup (bytes "COMPRESSION_TYPES") compression_defaults;
  enable_profiler = env_bool lookup (bytes "ENABLE_PROFILER") false;
  enable_swagger = env_bool lookup (bytes "ENABLE_SWAGGER") true;
  require_auth_for_ui = env_bool lookup (bytes "REQUIRE_AUTH_FOR_UI") false;
  min_api_key_length = env_int lookup (bytes "MIN_API_KEY_LENGTH") 32;
  allowed_content_types =
      env_string_slice lookup (bytes "ALLOWED_CONTENT_TYPES")
        (bytes "application/json" ∷ bytes "text/plain" ∷ []);
  security_headers = env_string_map lookup (bytes "SECURITY_HEADERS") header_defaults;
  enable_request_logging = env_bool lookup (bytes "ENABLE_REQUEST_LOGGING") false;
  enable_management_logging = env_bool lookup (bytes "ENABLE_MANAGEMENT_LOGGING") true;
  enable_security_logging = env_bool lookup (bytes "ENABLE_SECURITY_LOGGING") true;
  enable_critical_logging = env_bool lookup (bytes "ENABLE_CRITICAL_LOGGING") true;
  suppress_crud_logging = env_bool lookup (bytes "SUPPRESS_CRUD_LOGGING") true;
  enable_error_logging = env_bool lookup (bytes "ENABLE_ERROR_LOGGING") true;
  enable_warn_logging = env_bool lookup (bytes "ENABLE_WARN_LOGGING") true;
  enable_validation_logging = env_bool lookup (bytes "ENABLE_VALIDATION_LOGGING") false;
}
