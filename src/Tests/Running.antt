-- ===== src/Tests/Running.antt =====
-- A service that starts with a port of its own and without the other services, and the theorems on it.
use ctse_mood_rule_service.Common.{
  ℕ, suc, String, true, false, ◌≡◌, refl, ◌⊎◌, none, some, [], ◌==◌, if◌then◌else◌, Error, errorf,
  wrap, Result, ok, err,
}
use ctse_mood_rule_service.Common.Int.{ℤ, pos}
use ctse_mood_rule_service.Engine.Index.{Holds}
use ctse_mood_rule_service.Cache.{CacheKey, MemoryCache, get, new_memory_cache}
use ctse_mood_rule_service.EventBus.{EventBus, handlers_of, new_event_bus, subscribe}
use ctse_mood_rule_service.Server.{invalid_argument}
use ctse_mood_rule_service.Server.Recommend.{recommend}
use ctse_mood_rule_service.Server.Recommend.Failing.{end_of, failed_with}
use ctse_mood_rule_service.Config.{
  Environment, Config, get_env, get_env_as_int, get_env_as_bool, get_env_as_float,
  get_env_as_duration, read_config,
}
use ctse_mood_rule_service.Config as Settings
use ctse_mood_rule_service.Config.Loading.{is_port, bad_port}
use ctse_mood_rule_service.Config.Fields.{ReadsInt, Reads}
use ctse_mood_rule_service.Config.Reading.{load-Reads}
use ctse_mood_rule_service.Clients.Auth.{AuthClient}
use ctse_mood_rule_service.Clients.Catalog.{ProductCatalogClient}
use ctse_mood_rule_service.MoodHandler.{
  MoodUpdateRequest, Http, MoodHandler, Payload, forward_to_auth_service, publish_mood_change,
  update_mood,
}
use ctse_mood_rule_service.MoodHandler.Replies.{
  status, Refuses, update_mood_publishes, update_mood_ignores_catalog,
}
use ctse_mood_rule_service.Service.{
  Pgx, Environs, Running, running, init_database, new_server, on_rule_updated, start,
}
use ctse_mood_rule_service.Service.Updates.{on_rule_updated_lem}
use ctse_mood_rule_service.Service.Requests.{without_mood, recommend-new_server}
use ctse_mood_rule_service.Service.Starting.{Fresh, start-running, running-start}
use ctse_mood_rule_service.Tests.Data.{Number, num, number_float, rules, store, rule_engine}
use ctse_mood_rule_service.Tests.Serving.{Answer, call, request}
use ctse_mood_rule_service.Tests.Retrying.{
  tripping, counting, tripping-IsBreaker, still, three_more,
}

-- The one variable that is set is that of the port.
abbrev pub environment : Environment Number
environment = record {
  getenv = λ key. if key == "GRPC_PORT" then "9090" else "";
  atoi = λ text. if text == "9090" then ok (pos 9090) else err (errorf "invalid syntax");
  parse_bool = λ text. err (errorf "invalid syntax");
  parse_float = λ text. err (errorf "invalid syntax");
  parse_duration = λ text. err (errorf "invalid syntax");
}

load-Reads_example :
    ((c : Config Number) × (Settings.load environment (num (pos 1)) ≡ ok c)
      × Reads environment (num (pos 1)) c
      × (is_port c.server.grpc_port ≡ true))
    ⊎ ((port : ℤ) × (Settings.load environment (num (pos 1)) ≡ err (bad_port port))
        × ReadsInt environment "GRPC_PORT" (pos 50051) port
        × (is_port port ≡ false))
load-Reads_example = load-Reads environment (num (pos 1))

-- What is outside counts the calls of the auth service.
abbrev pub http : Http String ℕ
http = record {
  marshal_mood = ok;
  request_error = λ url. none;
  client_do = λ sent w. (ok (record { status_code = 200; body = "" }), suc w);
  unix_nano = λ w. w;
  unix = λ w. w;
}

abbrev bus : EventBus Payload
bus = subscribe "mood_changed" (λ event. none) (new_event_bus (pos 0))

abbrev pub mood_handler : MoodHandler Number ℕ
mood_handler = record {
  auth_service_url = "http://auth:4000";
  bus = some bus;
  product_client = none;
}

abbrev new_mood : MoodUpdateRequest
new_mood = record { user_id = "u1"; mood = "sad" }

update_mood_publishes_example :
    let a = update_mood http still mood_handler (ok new_mood) "token" 0 in
    let forwarded = λ (req : MoodUpdateRequest).
      forward_to_auth_service http "http://auth:4000" req.mood "token" 0 in
    ((req : MoodUpdateRequest) × (ok new_mood ≡ ok req)
      × (("token" == "") ≡ false)
      × ((forwarded req).0 ≡ none)
      × (status a.reply ≡ 200)
      × (a.started ≡ publish_mood_change http (some bus) req.user_id req.mood (forwarded req).1))
    ⊎ (((e : Error) × (ok new_mood ≡ err e) × Refuses 400 0 a)
        ⊎ (((req : MoodUpdateRequest) × (ok new_mood ≡ ok req)
              × (("token" == "") ≡ true)
              × Refuses 401 0 a)
            ⊎ ((req : MoodUpdateRequest) × (ok new_mood ≡ ok req)
                × (("token" == "") ≡ false)
                × ((e : Error) × ((forwarded req).0 ≡ some e) × Refuses 500 (forwarded req).1 a))))
update_mood_publishes_example =
    update_mood_publishes http still mood_handler (ok new_mood) "token" 0

abbrev no_products : ProductCatalogClient Number ℕ
no_products = record {
  get_products = λ asked w. (err (errorf "down"), suc w);
  notify = λ news w. (err (errorf "down"), suc w);
  products_breaker = record { execute = λ called w. called w; is_open_state = λ e. false };
  notify_breaker = record { execute = λ called w. called w; is_open_state = λ e. false };
  retries = three_more;
  conn = none;
}

update_mood_ignores_catalog_example :
    let a = update_mood http still mood_handler (ok new_mood) "token" 0 in
    let b =
      update_mood http still
        (record mood_handler { product_client = some no_products })
        (ok new_mood)
        "token"
        0 in
    (a.reply ≡ b.reply) × (a.started ≡ b.started)
update_mood_ignores_catalog_example =
    update_mood_ignores_catalog http still mood_handler (some no_products) (ok new_mood) "token" 0

abbrev cache : MemoryCache Answer
cache = new_memory_cache (pos 600_000_000_000)

abbrev key : CacheKey
key = record {
  mood = "happy";
  time_of_day = "morning";
  weather = "";
  segment = "u1";
  rule_version = pos 1;
}

on_rule_updated_lem_example :
    let u = on_rule_updated store bus rule_engine cache in
    ((u.answer ≡ none)
      × Holds store u.engine
      × (get 5 key u.cache ≡ none)
      × (u.started ≡ handlers_of "cache_invalidate" bus))
    ⊎ ((e : Error) × (u.answer ≡ some (wrap "failed to reload rules" e))
        × (u.engine ≡ rule_engine)
        × (u.cache ≡ cache)
        × (u.started ≡ []))
on_rule_updated_lem_example = on_rule_updated_lem bus cache store rule_engine key 5

abbrev auth_client : AuthClient ℕ
auth_client = record { circuit_breaker = tripping; retries = three_more; conn = none }

abbrev no_catalog : Result (ProductCatalogClient Number ℕ)
no_catalog = err (errorf "no address")

recommend-new_server_example :
    end_of
      (recommend call request (new_server still 0 rule_engine cache (ok auth_client) no_catalog)).0
    ≡ (if "u1" == "" then failed_with invalid_argument else without_mood (ok auth_client))
recommend-new_server_example =
    recommend-new_server still counting call rule_engine cache no_catalog (ok auth_client) request 0
      tripping-IsBreaker

abbrev pgx : Pgx String ℕ
pgx = record {
  parse_config = ok;
  with_lifetimes = λ life idle parsed. parsed;
  new_with_config = λ parsed. ok 5;
  ping = λ pool. ok tt;
}

abbrev environs : Environs Number ℕ String ℕ
environs = record {
  logger_init = none;
  environment = environment;
  ratio = num (pos 1);
  pgx = pgx;
  rule_store = λ pool. store;
  dial_auth = λ cfg. err (errorf "no address");
  dial_catalog = λ cfg. no_catalog;
  listen = λ port. none;
  serve_grpc = none;
  listen_and_serve = λ port. none;
  rule_updated = λ event. none;
}

abbrev config : Config Number
config = read_config environment (num (pos 1))

configured : Settings.load environment (num (pos 1)) ≡ ok config
unfolding Settings.load
configured = refl

connected : init_database pgx config.database ≡ ok 5
unfolding init_database
connected = refl

started_so :
    (s : Running Number Answer ℕ) × (start environs ≡ running s) × Fresh environs config 5 s
started_so =
    start-running environs config 5 rules (pos 1) refl configured connected refl refl refl refl refl

abbrev service : Running Number Answer ℕ
service = started_so.0

started : start environs ≡ running service
started = started_so.1

running-start_example :
    (environs.logger_init ≡ none)
    × (Settings.load environment (num (pos 1)) ≡ ok service.config)
    × (is_port service.config.server.grpc_port ≡ true)
    × (environs.listen service.config.server.grpc_port ≡ none)
    × (environs.serve_grpc ≡ none)
    × (environs.listen_and_serve service.config.server.health_port ≡ none)
    × ((pool : ℕ) × (init_database pgx service.config.database ≡ ok pool)
        × Holds (environs.rule_store pool) service.engine)
running-start_example = running-start environs service started
