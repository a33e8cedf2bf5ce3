-- ===== src/Config.antt =====
-- internal/config/config.go: the configuration, read from environment variables. `os.Getenv` and the
-- parsers of strconv and time are the parameter `Environment`; a duration is in nanoseconds.
pub mod Loading
pub mod Fields
pub mod Reading
use Prim.Native.Nat.{◌%◌, ◌^◌}
use Prim.Native.String.{◌++◌}
use ctse_mood_rule_service.Common.{
  ℕ, ◌-◌, ◌*◌, String, Bool, true, false, ◌||◌, not, Option, none, some, ◌==◌, if◌then◌else◌, Error,
  errorf, wrap, Result, ok, err,
}
use ctse_mood_rule_service.Common.Int.{ℤ, pos, negsuc, gtb_ℤ}
use ctse_mood_rule_service.Common.Decimal.{format_int}

pub record Environment (F : Type 0) : Type 0 where
  pub getenv : String → String
  pub atoi : String → Result ℤ
  pub parse_bool : String → Result Bool
  pub parse_float : String → Result F
  pub parse_duration : String → Result ℤ

pub record ServerConfig : Type 0 where
  pub grpc_port : ℤ
  pub health_port : ℤ
  pub tls_enabled : Bool
  pub tls_cert_file : String
  pub tls_key_file : String
  pub read_timeout : ℤ
  pub write_timeout : ℤ
  pub max_payload_mb : ℤ

pub record DatabaseConfig : Type 0 where
  pub host : String
  pub port : ℤ
  pub user : String
  pub password : String
  pub database : String
  pub ssl_mode : String
  pub max_conns : ℤ
  pub min_conns : ℤ
  pub max_conn_lifetime : ℤ
  pub max_conn_idle_time : ℤ

pub record CircuitBreakerConfig (F : Type 0) : Type 0 where
  pub max_requests : ℕ
  pub interval : ℤ
  pub timeout : ℤ
  pub failure_ratio : F

pub record ServiceEndpoint (F : Type 0) : Type 0 where
  pub address : String
  pub timeout : ℤ
  pub max_retries : ℤ
  pub retry_backoff : ℤ
  pub circuit_breaker : CircuitBreakerConfig F

pub record ServicesConfig (F : Type 0) : Type 0 where
  pub auth_service : ServiceEndpoint F
  pub product_catalog : ServiceEndpoint F

pub record EngineConfig : Type 0 where
  pub initial_capacity : ℤ
  pub reload_interval : ℤ
  pub max_concurrency : ℤ

pub record Config (F : Type 0) : Type 0 where
  pub server : ServerConfig
  pub database : DatabaseConfig
  pub services : ServicesConfig F
  pub engine : EngineConfig

-- `uint32(n)`: the low 32 bits.
unfoldable pub to_uint32 : ℤ → ℕ
to_uint32 (pos n) = n % 2 ^ 32
to_uint32 (negsuc n) = 2 ^ 32 - 1 - n % 2 ^ 32

-- `if err != nil { return defaultValue }`
unfoldable pub or_default : {A : Type 0} → Result A → A → A
or_default (ok value) default_value = value
or_default (err e) default_value = default_value

abbrev pub millis : ℕ → ℤ
millis n = pos (n * 1_000_000)

abbrev pub seconds : ℕ → ℤ
seconds n = pos (n * 1_000_000_000)

abbrev pub minutes : ℕ → ℤ
minutes n = pos (n * 60_000_000_000)

module _ {F : Type 0} (env : Environment F) where
  unfoldable pub get_env : String → String → String
  get_env key default_value =
      let value = env.getenv key in if not (value == "") then value else default_value

  unfoldable pub get_env_as_int : String → ℤ → ℤ
  unfolding or_default
  get_env_as_int key default_value =
      let value_str = env.getenv key in
      if value_str == "" then default_value else or_default (env.atoi value_str) default_value

  unfoldable pub get_env_as_bool : String → Bool → Bool
  unfolding or_default
  get_env_as_bool key default_value =
      let value_str = env.getenv key in
      if value_str == "" then default_value else or_default (env.parse_bool value_str) default_value

  unfoldable pub get_env_as_float : String → F → F
  unfolding or_default
  get_env_as_float key default_value =
      let value_str = env.getenv key in
      if value_str == ""
      then default_value
      else or_default (env.parse_float value_str) default_value

  unfoldable pub get_env_as_duration : String → ℤ → ℤ
  unfolding or_default
  get_env_as_duration key default_value =
      let value_str = env.getenv key in
      if value_str == ""
      then default_value
      else or_default (env.parse_duration value_str) default_value

  unfoldable pub read_server : ServerConfig
  unfolding get_env get_env_as_int get_env_as_bool get_env_as_duration
  read_server = record {
    grpc_port = get_env_as_int "GRPC_PORT" (pos 50051);
    health_port = get_env_as_int "HEALTH_PORT" (pos 8080);
    tls_enabled = get_env_as_bool "TLS_ENABLED" false;
    tls_cert_file = get_env "TLS_CERT_FILE" "";
    tls_key_file = get_env "TLS_KEY_FILE" "";
    read_timeout = get_env_as_duration "READ_TIMEOUT" (seconds 30);
    write_timeout = get_env_as_duration "WRITE_TIMEOUT" (seconds 30);
    max_payload_mb = get_env_as_int "MAX_PAYLOAD_MB" (pos 4);
  }

  unfoldable pub read_database : DatabaseConfig
  unfolding get_env get_env_as_int get_env_as_duration
  read_database = record {
    host = get_env "DB_HOST" "localhost";
    port = get_env_as_int "DB_PORT" (pos 5432);
    user = get_env "DB_USER" "postgres";
    password = get_env "DB_PASSWORD" "postgres";
    database = get_env "DB_NAME" "mood_rules";
    ssl_mode = get_env "DB_SSLMODE" "disable";
    max_conns = get_env_as_int "DB_MAX_CONNS" (pos 25);
    min_conns = get_env_as_int "DB_MIN_CONNS" (pos 5);
    max_conn_lifetime = get_env_as_duration "DB_MAX_CONN_LIFETIME" (minutes 60);
    max_conn_idle_time = get_env_as_duration "DB_MAX_CONN_IDLE_TIME" (minutes 30);
  }

  -- The argument is the literal 0.6.
  unfoldable pub read_services : F → ServicesConfig F
  unfolding get_env get_env_as_int get_env_as_float get_env_as_duration to_uint32
  read_services ratio = record {
    auth_service = record {
      address = get_env "AUTH_SERVICE_ADDR" "localhost:50052";
      timeout = get_env_as_duration "AUTH_SERVICE_TIMEOUT" (seconds 5);
      max_retries = get_env_as_int "AUTH_SERVICE_MAX_RETRIES" (pos 3);
      retry_backoff = get_env_as_duration "AUTH_SERVICE_RETRY_BACKOFF" (millis 100);
      circuit_breaker = record {
        max_requests = to_uint32 (get_env_as_int "AUTH_CB_MAX_REQUESTS" (pos 5));
        interval = get_env_as_duration "AUTH_CB_INTERVAL" (seconds 10);
        timeout = get_env_as_duration "AUTH_CB_TIMEOUT" (seconds 60);
        failure_ratio = get_env_as_float "AUTH_CB_FAILURE_RATIO" ratio;
      };
    };
    product_catalog = record {
      address = get_env "PRODUCT_CATALOG_ADDR" "localhost:50053";
      timeout = get_env_as_duration "PRODUCT_CATALOG_TIMEOUT" (seconds 5);
      max_retries = get_env_as_int "PRODUCT_CATALOG_MAX_RETRIES" (pos 3);
      retry_backoff = get_env_as_duration "PRODUCT_CATALOG_RETRY_BACKOFF" (millis 100);
      circuit_breaker = record {
        max_requests = to_uint32 (get_env_as_int "PRODUCT_CB_MAX_REQUESTS" (pos 5));
        interval = get_env_as_duration "PRODUCT_CB_INTERVAL" (seconds 10);
        timeout = get_env_as_duration "PRODUCT_CB_TIMEOUT" (seconds 60);
        failure_ratio = get_env_as_float "PRODUCT_CB_FAILURE_RATIO" ratio;
      };
    };
  }

  unfoldable pub read_engine : EngineConfig
  unfolding get_env_as_int get_env_as_duration
  read_engine = record {
    initial_capacity = get_env_as_int "ENGINE_INITIAL_CAPACITY" (pos 1000);
    reload_interval = get_env_as_duration "ENGINE_RELOAD_INTERVAL" (minutes 5);
    max_concurrency = get_env_as_int "ENGINE_MAX_CONCURRENCY" (pos 10000);
  }

  unfoldable pub read_config : F → Config F
  unfolding read_server read_database read_services read_engine
  read_config ratio = record {
    server = read_server;
    database = read_database;
    services = read_services ratio;
    engine = read_engine;
  }

module _ {F : Type 0} where
  -- `Validate`
  unfoldable pub validate : Config F → Option Error
  unfolding format_int
  validate c =
      if not (gtb_ℤ c.server.grpc_port (pos 0)) || gtb_ℤ c.server.grpc_port (pos 65535)
      then some (errorf ("invalid GRPC port: " ++ format_int c.server.grpc_port))
      else if c.database.host == ""
      then some (errorf "database host is required")
      else none

  pub checked : Config F → Option Error → Result (Config F)
  checked cfg none = ok cfg
  checked cfg (some e) = err (wrap "invalid configuration" e)

  -- `Load`
  unfoldable pub load : Environment F → F → Result (Config F)
  unfolding read_config validate checked
  load env ratio = let cfg = read_config env ratio in checked cfg (validate cfg)
