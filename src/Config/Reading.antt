-- ===== src/Config/Reading.antt =====
-- That `Load` reads every variable into its field.
use ctse_mood_rule_service.Common.{
  String, Bool, true, false, ◌≡◌, refl, ◌⊎◌, inl, inr, ◌==◌, eq_iff, if◌then◌else◌, Bool-cases,
  Result, ok, err, Result-cases,
}
use ctse_mood_rule_service.Common.Int.{ℤ, pos}
use ctse_mood_rule_service.Config.{
  Environment, Config, or_default, get_env, get_env_as_int, get_env_as_bool, get_env_as_float,
  get_env_as_duration, read_server, read_database, read_services, read_engine, read_config, load,
}
use ctse_mood_rule_service.Config.Fields.{
  IsParsed, ReadsText, ReadsInt, ReadsBool, ReadsFloat, ReadsDuration, ServerReads, DatabaseReads,
  AuthReads, CatalogReads, EngineReads, Reads,
}
use ctse_mood_rule_service.Config.Loading.{is_port, bad_port, load_lem}

get_or_default-IsParsed :
    {A : Type 0} (parse : String → Result A) (text : String) (default_value : A)
    → IsParsed parse text default_value
        (if text == "" then default_value else or_default (parse text) default_value)
unfolding or_default
get_or_default-IsParsed parse text default_value = elim (Bool-cases (text == "")) [
  | inl empty ↦ rw empty (inr (inl ((eq_iff text "").0 empty), refl))
  | inr other ↦
      let filled = λ (e : text ≡ ""). let same = (eq_iff text "").1 e in absurd (cc) in
      elim (Result-cases (parse text)) [
        | inl (value, e) ↦ rw (other, e) (inl (filled, refl))
        | inr (x, e) ↦ rw (other, e) (inr (inr (x, refl), refl))
      ]
]

module _ {F : Type 0} (env : Environment F) where
  get_env-ReadsText :
      (key default_value : String) → ReadsText env key default_value (get_env env key default_value)
  unfolding get_env
  get_env-ReadsText key default_value = elim (Bool-cases (env.getenv key == "")) [
    | inl empty ↦ rw empty (inr ((eq_iff (env.getenv key) "").0 empty, refl))
    | inr other ↦
        rw other (inl (λ e. let same = (eq_iff (env.getenv key) "").1 e in absurd (cc), refl))
  ]

  get_env_as_int-ReadsInt :
      (key : String) (default_value : ℤ)
      → ReadsInt env key default_value (get_env_as_int env key default_value)
  unfolding get_env_as_int
  get_env_as_int-ReadsInt key default_value =
      get_or_default-IsParsed env.atoi (env.getenv key) default_value

  get_env_as_bool-ReadsBool :
      (key : String) (default_value : Bool)
      → ReadsBool env key default_value (get_env_as_bool env key default_value)
  unfolding get_env_as_bool
  get_env_as_bool-ReadsBool key default_value =
      get_or_default-IsParsed env.parse_bool (env.getenv key) default_value

  get_env_as_float-ReadsFloat :
      (key : String) (default_value : F)
      → ReadsFloat env key default_value (get_env_as_float env key default_value)
  unfolding get_env_as_float
  get_env_as_float-ReadsFloat key default_value =
      get_or_default-IsParsed env.parse_float (env.getenv key) default_value

  get_env_as_duration-ReadsDuration :
      (key : String) (default_value : ℤ)
      → ReadsDuration env key default_value (get_env_as_duration env key default_value)
  unfolding get_env_as_duration
  get_env_as_duration-ReadsDuration key default_value =
      get_or_default-IsParsed env.parse_duration (env.getenv key) default_value

  read_server-ServerReads : ServerReads env (read_server env)
  unfolding read_server
  read_server-ServerReads = record {
    grpc_port = get_env_as_int-ReadsInt _ _;
    health_port = get_env_as_int-ReadsInt _ _;
    tls_enabled = get_env_as_bool-ReadsBool _ _;
    tls_cert_file = get_env-ReadsText _ _;
    tls_key_file = get_env-ReadsText _ _;
    read_timeout = get_env_as_duration-ReadsDuration _ _;
    write_timeout = get_env_as_duration-ReadsDuration _ _;
    max_payload_mb = get_env_as_int-ReadsInt _ _;
  }

  read_database-DatabaseReads : DatabaseReads env (read_database env)
  unfolding read_database
  read_database-DatabaseReads = record {
    host = get_env-ReadsText _ _;
    port = get_env_as_int-ReadsInt _ _;
    user = get_env-ReadsText _ _;
    password = get_env-ReadsText _ _;
    database = get_env-ReadsText _ _;
    ssl_mode = get_env-ReadsText _ _;
    max_conns = get_env_as_int-ReadsInt _ _;
    min_conns = get_env_as_int-ReadsInt _ _;
    max_conn_lifetime = get_env_as_duration-ReadsDuration _ _;
    max_conn_idle_time = get_env_as_duration-ReadsDuration _ _;
  }

  read_services-AuthReads : (ratio : F) → AuthReads env ratio (read_services env ratio).auth_service
  unfolding read_services
  read_services-AuthReads ratio = record {
    address = get_env-ReadsText _ _;
    timeout = get_env_as_duration-ReadsDuration _ _;
    max_retries = get_env_as_int-ReadsInt _ _;
    retry_backoff = get_env_as_duration-ReadsDuration _ _;
    max_requests = (_, get_env_as_int-ReadsInt _ _, refl);
    interval = get_env_as_duration-ReadsDuration _ _;
    open_for = get_env_as_duration-ReadsDuration _ _;
    failure_ratio = get_env_as_float-ReadsFloat _ _;
  }

  read_services-CatalogReads :
      (ratio : F) → CatalogReads env ratio (read_services env ratio).product_catalog
  unfolding read_services
  read_services-CatalogReads ratio = record {
    address = get_env-ReadsText _ _;
    timeout = get_env_as_duration-ReadsDuration _ _;
    max_retries = get_env_as_int-ReadsInt _ _;
    retry_backoff = get_env_as_duration-ReadsDuration _ _;
    max_requests = (_, get_env_as_int-ReadsInt _ _, refl);
    interval = get_env_as_duration-ReadsDuration _ _;
    open_for = get_env_as_duration-ReadsDuration _ _;
    failure_ratio = get_env_as_float-ReadsFloat _ _;
  }

  read_engine-EngineReads : EngineReads env (read_engine env)
  unfolding read_engine
  read_engine-EngineReads = record {
    initial_capacity = get_env_as_int-ReadsInt _ _;
    reload_interval = get_env_as_duration-ReadsDuration _ _;
    max_concurrency = get_env_as_int-ReadsInt _ _;
  }

  read_config-Reads : (ratio : F) → Reads env ratio (read_config env ratio)
  unfolding read_config
  read_config-Reads ratio = record {
    server = read_server-ServerReads;
    database = read_database-DatabaseReads;
    auth_service = read_services-AuthReads ratio;
    product_catalog = read_services-CatalogReads ratio;
    engine = read_engine-EngineReads;
  }

  -- `Load` answers a configuration in which each field has what its variable says, or its own default
  -- where the variable is empty or cannot be parsed, with a gRPC port from 1 to 65535; or, if what its
  -- variable or its default says of the gRPC port is no such number, it fails with an error that names
  -- that number. There is no other failure.
  pub load-Reads :
      (ratio : F)
      → ((c : Config F) × (load env ratio ≡ ok c)
          × Reads env ratio c
          × (is_port c.server.grpc_port ≡ true))
        ⊎ ((port : ℤ) × (load env ratio ≡ err (bad_port port))
            × ReadsInt env "GRPC_PORT" (pos 50051) port
            × (is_port port ≡ false))
  unfolding read_config read_server
  load-Reads ratio =
      let port = get_env_as_int env "GRPC_PORT" (pos 50051) in
      elim (Bool-cases (is_port port)) [
        | inl fits ↦
            let read = rw fits at (load_lem env ratio) in
            inl (read_config env ratio, read, read_config-Reads ratio, fits)
        | inr wild ↦
            let failed = rw wild at (load_lem env ratio) in
            inr (port, failed, get_env_as_int-ReadsInt "GRPC_PORT" (pos 50051), wild)
      ]
