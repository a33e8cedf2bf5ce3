-- ===== src/Config/Fields.antt =====
-- What a configuration says if each of its fields is read from its own environment variable: the names of
-- the variables and the defaults of internal/config/config.go.
use ctse_mood_rule_service.Common.{ℕ, String, Bool, false, ◌≡◌, ◌≢◌, ◌⊎◌, Error, Result, ok, err}
use ctse_mood_rule_service.Common.Int.{ℤ, pos}
use ctse_mood_rule_service.Config.{
  Environment, ServerConfig, DatabaseConfig, ServiceEndpoint, EngineConfig, Config, to_uint32,
  millis, seconds, minutes,
}

-- The value is the text, or the default if that is empty.
abbrev pub IsText : String → String → String → Type 0
IsText text default_value value =
    ((text ≢ "") × (value ≡ text)) ⊎ ((text ≡ "") × (value ≡ default_value))

-- The value is what the text is parsed to, or the default if it is empty or cannot be parsed.
abbrev pub IsParsed : {A : Type 0} → (String → Result A) → String → A → A → Type 0
IsParsed parse text default_value value =
    ((text ≢ "") × (parse text ≡ ok value))
    ⊎ (((text ≡ "") ⊎ ((e : Error) × (parse text ≡ err e))) × (value ≡ default_value))

module _ {F : Type 0} (env : Environment F) where
  abbrev pub ReadsText : String → String → String → Type 0
  ReadsText key default_value value = IsText (env.getenv key) default_value value

  abbrev pub ReadsInt : String → ℤ → ℤ → Type 0
  ReadsInt key default_value value = IsParsed env.atoi (env.getenv key) default_value value

  abbrev pub ReadsBool : String → Bool → Bool → Type 0
  ReadsBool key default_value value = IsParsed env.parse_bool (env.getenv key) default_value value

  abbrev pub ReadsFloat : String → F → F → Type 0
  ReadsFloat key default_value value = IsParsed env.parse_float (env.getenv key) default_value value

  abbrev pub ReadsDuration : String → ℤ → ℤ → Type 0
  ReadsDuration key default_value value =
      IsParsed env.parse_duration (env.getenv key) default_value value

  -- The low 32 bits of a number.
  abbrev pub ReadsUint32 : String → ℤ → ℕ → Type 0
  ReadsUint32 key default_value value =
      (n : ℤ) × ReadsInt key default_value n × (value ≡ to_uint32 n)

  pub record ServerReads (c : ServerConfig) : Type 0 where
    pub grpc_port : ReadsInt "GRPC_PORT" (pos 50051) c.grpc_port
    pub health_port : ReadsInt "HEALTH_PORT" (pos 8080) c.health_port
    pub tls_enabled : ReadsBool "TLS_ENABLED" false c.tls_enabled
    pub tls_cert_file : ReadsText "TLS_CERT_FILE" "" c.tls_cert_file
    pub tls_key_file : ReadsText "TLS_KEY_FILE" "" c.tls_key_file
    pub read_timeout : ReadsDuration "READ_TIMEOUT" (seconds 30) c.read_timeout
    pub write_timeout : ReadsDuration "WRITE_TIMEOUT" (seconds 30) c.write_timeout
    pub max_payload_mb : ReadsInt "MAX_PAYLOAD_MB" (pos 4) c.max_payload_mb

  pub record DatabaseReads (c : DatabaseConfig) : Type 0 where
    pub host : ReadsText "DB_HOST" "localhost" c.host
    pub port : ReadsInt "DB_PORT" (pos 5432) c.port
    pub user : ReadsText "DB_USER" "postgres" c.user
    pub password : ReadsText "DB_PASSWORD" "postgres" c.password
    pub database : ReadsText "DB_NAME" "mood_rules" c.database
    pub ssl_mode : ReadsText "DB_SSLMODE" "disable" c.ssl_mode
    pub max_conns : ReadsInt "DB_MAX_CONNS" (pos 25) c.max_conns
    pub min_conns : ReadsInt "DB_MIN_CONNS" (pos 5) c.min_conns
    pub max_conn_lifetime : ReadsDuration "DB_MAX_CONN_LIFETIME" (minutes 60) c.max_conn_lifetime
    pub max_conn_idle_time : ReadsDuration "DB_MAX_CONN_IDLE_TIME" (minutes 30) c.max_conn_idle_time

  pub record AuthReads (ratio : F) (c : ServiceEndpoint F) : Type 0 where
    pub address : ReadsText "AUTH_SERVICE_ADDR" "localhost:50052" c.address
    pub timeout : ReadsDuration "AUTH_SERVICE_TIMEOUT" (seconds 5) c.timeout
    pub max_retries : ReadsInt "AUTH_SERVICE_MAX_RETRIES" (pos 3) c.max_retries
    pub retry_backoff : ReadsDuration "AUTH_SERVICE_RETRY_BACKOFF" (millis 100) c.retry_backoff
    pub max_requests : ReadsUint32 "AUTH_CB_MAX_REQUESTS" (pos 5) c.circuit_breaker.max_requests
    pub interval : ReadsDuration "AUTH_CB_INTERVAL" (seconds 10) c.circuit_breaker.interval
    pub open_for : ReadsDuration "AUTH_CB_TIMEOUT" (seconds 60) c.circuit_breaker.timeout
    pub failure_ratio : ReadsFloat "AUTH_CB_FAILURE_RATIO" ratio c.circuit_breaker.failure_ratio

  pub record CatalogReads (ratio : F) (c : ServiceEndpoint F) : Type 0 where
    pub address : ReadsText "PRODUCT_CATALOG_ADDR" "localhost:50053" c.address
    pub timeout : ReadsDuration "PRODUCT_CATALOG_TIMEOUT" (seconds 5) c.timeout
    pub max_retries : ReadsInt "PRODUCT_CATALOG_MAX_RETRIES" (pos 3) c.max_retries
    pub retry_backoff : ReadsDuration "PRODUCT_CATALOG_RETRY_BACKOFF" (millis 100) c.retry_backoff
    pub max_requests : ReadsUint32 "PRODUCT_CB_MAX_REQUESTS" (pos 5) c.circuit_breaker.max_requests
    pub interval : ReadsDuration "PRODUCT_CB_INTERVAL" (seconds 10) c.circuit_breaker.interval
    pub open_for : ReadsDuration "PRODUCT_CB_TIMEOUT" (seconds 60) c.circuit_breaker.timeout
    pub failure_ratio : ReadsFloat "PRODUCT_CB_FAILURE_RATIO" ratio c.circuit_breaker.failure_ratio

  pub record EngineReads (c : EngineConfig) : Type 0 where
    pub initial_capacity : ReadsInt "ENGINE_INITIAL_CAPACITY" (pos 1000) c.initial_capacity
    pub reload_interval : ReadsDuration "ENGINE_RELOAD_INTERVAL" (minutes 5) c.reload_interval
    pub max_concurrency : ReadsInt "ENGINE_MAX_CONCURRENCY" (pos 10000) c.max_concurrency

  pub record Reads (ratio : F) (c : Config F) : Type 0 where
    pub server : ServerReads c.server
    pub database : DatabaseReads c.database
    pub auth_service : AuthReads ratio c.services.auth_service
    pub product_catalog : CatalogReads ratio c.services.product_catalog
    pub engine : EngineReads c.engine
