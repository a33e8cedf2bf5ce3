-- ===== src/Service.antt =====
-- cmd/server/main.go: how the parts are put together. The start is a function from what the environment
-- answers to the running service or the reason of the exit. Not
-- modelled: the health service and the reflection of gRPC.
pub mod Updates
pub mod Requests
pub mod Starting
pub mod Reachable
pub mod Threads
pub mod Http
pub mod Shutdown
use Prim.Native.String.{◌++◌}
use ctse_mood_rule_service.Common.{
  ℕ, String, Bool, Option, none, some, List, [], ◌∷◌, map, ◌==◌, if◌then◌else◌, Error, errorf, wrap,
  Result, ok, err, ◌>>=◌, or_wrap,
}
use ctse_mood_rule_service.Common.Int.{ℤ, pos}
use ctse_mood_rule_service.Common.Decimal.{format_int}
use ctse_mood_rule_service.Float.{Float64}
use ctse_mood_rule_service.Engine.{
  RuleStore, RuleEngine, new_rule_engine, load, reload, get_rule_count, get_version,
}
use ctse_mood_rule_service.Cache.{MemoryCache, new_memory_cache, invalidate_by_pattern}
use ctse_mood_rule_service.EventBus.{Event, Handler, EventBus, new_event_bus, subscribe, publish}
use ctse_mood_rule_service.Server.{Client, nil_pointer, client, Server}
use ctse_mood_rule_service.Server.Recommend.{GetProductsByFilters}
use ctse_mood_rule_service.Config.{Environment, DatabaseConfig, Config}
use ctse_mood_rule_service.Config as Settings
use ctse_mood_rule_service.Clients.{Clock}
use ctse_mood_rule_service.Clients.Auth.{AuthClient, auth_answers}
use ctse_mood_rule_service.Clients.Catalog.{ProductCatalogClient, catalog_answers}
use ctse_mood_rule_service.MoodHandler.{MoodHandler, new_mood_handler, Payload, reason}

-- The connection string of `initDatabase`.
unfoldable pub connection_string : DatabaseConfig → String
unfolding format_int
connection_string cfg =
    "host="
    ++ (cfg.host
        ++ (" port="
            ++ (format_int cfg.port
                ++ (" user="
                    ++ (cfg.user
                        ++ (" password="
                            ++ (cfg.password
                                ++ (" dbname="
                                    ++ (cfg.database
                                        ++ (" sslmode="
                                            ++ (cfg.ssl_mode
                                                ++ (" pool_max_conns="
                                                    ++ (format_int cfg.max_conns
                                                        ++ (" pool_min_conns="
                                                            ++ format_int
                                                            cfg.min_conns))))))))))))))

-- What pgxpool answers: `C` is its configuration, `P` a pool.
pub record Pgx (C P : Type 0) : Type 0 where
  pub parse_config : String → Result C
  -- the configuration with the two lifetimes set
  pub with_lifetimes : ℤ → ℤ → C → C
  pub new_with_config : C → Result P
  pub ping : P → Result (Unit {0})

-- `initDatabase`
unfoldable pub init_database : {C P : Type 0} → Pgx C P → DatabaseConfig → Result P
unfolding connection_string
init_database pgx cfg = do
  parsed ← or_wrap "failed to parse connection string" (pgx.parse_config (connection_string cfg))
  pool ←
      or_wrap "failed to create connection pool" (
        pgx.new_with_config
          (pgx.with_lifetimes cfg.max_conn_lifetime cfg.max_conn_idle_time parsed))
  alive ← or_wrap "failed to ping database" (pgx.ping pool)
  ok pool

-- A client variable as the server gets it: after a failed connection it is a nil pointer, and the
-- interface around it is not nil.
unfoldable pub as_interface : {A B : Type 0} → (A → B) → Result A → Client B
as_interface answers (err e) = nil_pointer
as_interface answers (ok c) = client (answers c)

-- The same variable where its own type is kept.
unfoldable pub as_pointer : {A : Type 0} → Result A → Option A
as_pointer (err e) = none
as_pointer (ok c) = some c

module _ {F B W : Type 0} where
  -- `grpc.NewServer(ruleEngine, memoryCache, authClient, productClient)`, with what the clients answer
  -- in the state `w` of what is outside.
  unfoldable pub new_server :
      Clock W
      → W
      → RuleEngine F
      → MemoryCache B
      → Result (AuthClient W)
      → Result (ProductCatalogClient F W)
      → Server F B (GetProductsByFilters F)
  unfolding as_interface
  new_server clock w engine cache auth_client product_client = record {
    engine = engine;
    cache = cache;
    auth_client = as_interface (λ c. auth_answers clock c w) auth_client;
    product_client = as_interface (λ c. catalog_answers clock c w) product_client;
  }

-- What the handler of rule updates leaves: its answer, the engine, the cache, and the handlers that it
-- starts.
pub record Updated (F B : Type 0) : Type 0 where
  pub answer : Option Error
  pub engine : RuleEngine F
  pub cache : MemoryCache B
  pub started : List (Handler Payload)

module _ {F B : Type 0} where
  unfoldable pub after_reload :
      EventBus Payload → MemoryCache B → RuleEngine F × Option Error → Updated F B
  unfolding invalidate_by_pattern publish
  after_reload bus cache (engine, some e) = record {
    answer = some (wrap "failed to reload rules" e);
    engine = engine;
    cache = cache;
    started = [];
  }
  after_reload bus cache (engine, none) = record {
    answer = none;
    engine = engine;
    cache = invalidate_by_pattern "*" cache;
    started =
        publish (record { event_type = "cache_invalidate"; payload = reason "rule_update" }) bus;
  }

  -- The handler of `EventTypeRuleUpdated`.
  unfoldable pub on_rule_updated :
      RuleStore F → EventBus Payload → RuleEngine F → MemoryCache B → Updated F B
  unfolding after_reload reload
  on_rule_updated store bus engine cache = after_reload bus cache (reload store engine)

-- The two subscriptions; the first handler is given by what it answers.
unfoldable pub new_bus : Handler Payload → EventBus Payload
unfolding new_event_bus subscribe
new_bus rule_updated =
    subscribe "cache_invalidate" (λ event. none)
      (subscribe "rule_updated" rule_updated (new_event_bus (pos 100)))

-- `http://%s` of the variable, or the default.
unfoldable pub auth_service_url : String → String
auth_service_url addr =
    let url = "http://" ++ addr in if url == "http://" then "http://auth:4000" else url

-- What the environment answers to the start.
pub record Environs (F W C P : Type 0) : Type 0 where
  pub logger_init : Option Error
  pub environment : Environment F
  -- the literal 0.6
  pub ratio : F
  pub pgx : Pgx C P
  pub rule_store : P → RuleStore F
  pub dial_auth : Config F → Result (AuthClient W)
  pub dial_catalog : Config F → Result (ProductCatalogClient F W)
  pub listen : ℤ → Option Error
  -- what serving comes to before a signal arrives: none if it goes on, or, for HTTP, was closed
  pub serve_grpc : Option Error
  pub listen_and_serve : ℤ → Option Error
  pub rule_updated : Handler Payload

-- What runs after the start.
pub record Running (F B W : Type 0) : Type 0 where
  pub config : Config F
  pub engine : RuleEngine F
  pub cache : MemoryCache B
  -- the gauges `RulesLoaded` and `RuleVersion`
  pub rules_loaded : ℕ
  pub rule_version : ℤ
  pub auth_client : Result (AuthClient W)
  pub product_client : Result (ProductCatalogClient F W)
  pub bus : EventBus Payload
  pub mood_handler : MoodHandler F W

-- `logger.Fatal` and `os.Exit` end the process.
pub data Start (F B W : Type 0) : Type 0 where
  exited : Error → Start F B W
  running : Running F B W → Start F B W

module _ {F B W C P : Type 0} (env : Environs F W C P) where
  -- The goroutine that serves HTTP, by what serving comes to before a signal arrives.
  pub after_http : Running F B W → Option Error → Start F B W
  after_http service (some e) = exited (wrap "HTTP server error" e)
  after_http service none = running service

  -- The one that serves gRPC. Either failure ends the process; of two failures, which may come in any
  -- order, that of gRPC is taken.
  pub after_serve : Running F B W → Option Error → Option Error → Start F B W
  unfolding after_http
  after_serve service (some e) http = exited (wrap "Failed to serve" e)
  after_serve service none http = after_http service http

  -- From the answer of `net.Listen` on.
  pub after_listen : Running F B W → Option Error → Start F B W
  unfolding after_serve
  after_listen service none =
      after_serve service env.serve_grpc (env.listen_and_serve service.config.server.health_port)
  after_listen service (some e) = exited (wrap "Failed to listen" e)

  pub after_load : Config F → RuleEngine F × Option Error → Start F B W
  unfolding new_memory_cache get_rule_count get_version new_bus new_mood_handler auth_service_url
      as_pointer after_listen
  after_load cfg (engine, some e) = exited (wrap "Failed to load rules" e)
  after_load cfg (engine, none) =
      let bus = new_bus env.rule_updated in
      let auth_client = env.dial_auth cfg in
      let product_client = env.dial_catalog cfg in
      after_listen
        (record {
          config = cfg;
          engine = engine;
          cache = new_memory_cache (pos 600_000_000_000);
          rules_loaded = get_rule_count engine;
          rule_version = get_version engine;
          auth_client = auth_client;
          product_client = product_client;
          bus = bus;
          mood_handler =
              new_mood_handler (auth_service_url (env.environment.getenv "AUTH_SERVICE_HTTP_ADDR"))
                (some bus) (as_pointer product_client);
        })
        (env.listen cfg.server.grpc_port)

  pub after_database : Config F → Result P → Start F B W
  unfolding load new_rule_engine after_load
  after_database cfg (err e) = exited (wrap "Failed to initialize database" e)
  after_database cfg (ok pool) = after_load cfg (load (env.rule_store pool) new_rule_engine)

  pub after_config : Result (Config F) → Start F B W
  unfolding init_database after_database
  after_config (err e) = exited (wrap "Failed to load configuration" e)
  after_config (ok cfg) = after_database cfg (init_database env.pgx cfg.database)

  pub after_logger : Option Error → Start F B W
  unfolding after_config
  after_logger (some e) = exited (wrap "Failed to initialize logger" e)
  after_logger none = after_config (Settings.load env.environment env.ratio)

  -- `main` up to the wait for a signal.
  unfoldable pub start : Start F B W
  unfolding after_logger
  start = after_logger env.logger_init
