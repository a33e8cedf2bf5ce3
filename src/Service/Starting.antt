-- ===== src/Service/Starting.antt =====
-- When the service starts, and with what.
use ctse_mood_rule_service.Common.{
  ℕ, true, lookup, ◌≡◌, refl, ◌∙◌, sym, ap, inl, inr, Option, none, some, List, Error, ok,
  Result-cases, Option-cases, length,
}
use ctse_mood_rule_service.Common.Int.{ℤ}
use ctse_mood_rule_service.Model.{Rule}
use ctse_mood_rule_service.Engine.{
  RuleStore, RuleEngine, new_rule_engine, load, get_rule_count, get_version,
}
use ctse_mood_rule_service.Engine.Index.{Holds, Updated, load-Updated}
use ctse_mood_rule_service.Cache.{CacheKey, get, new_memory_cache}
use ctse_mood_rule_service.Config.{Config}
use ctse_mood_rule_service.Config.Loading.{is_port, load-is_port}
use ctse_mood_rule_service.Config as Settings
use ctse_mood_rule_service.Service.{
  init_database, Environs, Running, running, after_listen, after_load, after_database, after_config,
  after_logger, after_http, after_serve, start,
}

load_succeeds :
    {F : Type 0} (store : RuleStore F) (e : RuleEngine F) (rules : List (Rule F)) (version : ℤ)
    → store.get_all_active_rules ≡ ok rules
    → store.get_max_version ≡ ok version
    → (load store e).1 ≡ none
unfolding load
load_succeeds store e rules version found numbered = rw (found, numbered, load) refl

module _ {F B W C P : Type 0} (env : Environs F W C P) where
  -- The service as it runs with this configuration and this pool.
  pub record Fresh (cfg : Config F) (pool : P) (s : Running F B W) : Type 0 where
    pub config : s.config ≡ cfg
    pub engine : Holds (env.rule_store pool) s.engine
    pub loaded : s.rules_loaded ≡ length s.engine.rules
    pub version : s.rule_version ≡ s.engine.version
    pub auth_client : s.auth_client ≡ env.dial_auth cfg
    pub product_client : s.product_client ≡ env.dial_catalog cfg
    pub cache : (key : CacheKey) (now : ℕ) → get now key s.cache ≡ none

  runs-listening :
      (made : Running F B W) (error : Option Error)
      → error ≡ none
      → env.serve_grpc ≡ none
      → env.listen_and_serve made.config.server.health_port ≡ none
      → after_listen env made error ≡ running made
  unfolding after_listen after_serve after_http
  runs-listening made none listens served http_served = rw (served, http_served) refl
  runs-listening made (some e) listens served http_served = absurd (cc)

  runs-after_load :
      (cfg : Config F) (pool : P) (done : RuleEngine F × Option Error)
      → done.1 ≡ none
      → Holds (env.rule_store pool) done.0
      → env.listen cfg.server.grpc_port ≡ none
      → env.serve_grpc ≡ none
      → env.listen_and_serve cfg.server.health_port ≡ none
      → (s : Running F B W) × (after_load env cfg done ≡ running s) × Fresh cfg pool s
  unfolding after_load get_rule_count get_version new_memory_cache get lookup
  runs-after_load cfg pool (engine, some e) fine holds listens served http_served = absurd (cc)
  runs-after_load cfg pool (engine, none) fine holds listens served http_served = (
    _,
    runs-listening _ (env.listen cfg.server.grpc_port) listens served http_served,
    record {
      config = refl;
      engine = holds;
      loaded = refl;
      version = refl;
      auth_client = refl;
      product_client = refl;
      cache = λ key now. refl;
    },
  )

  -- The service starts, whatever the dials of the two other services answer, if the logger can be
  -- made, the configuration is let through, the database answers, both queries of the rules succeed,
  -- the port of gRPC can be listened at, and both servers serve. It then runs with this configuration, the rules and the
  -- version that the database answers, with their index and the gauges set to their number and version,
  -- an empty cache, and the two clients as they were dialled.
  pub start-running :
      (cfg : Config F) (pool : P) (rules : List (Rule F)) (version : ℤ)
      → env.logger_init ≡ none
      → Settings.load env.environment env.ratio ≡ ok cfg
      → init_database env.pgx cfg.database ≡ ok pool
      → (env.rule_store pool).get_all_active_rules ≡ ok rules
      → (env.rule_store pool).get_max_version ≡ ok version
      → env.listen cfg.server.grpc_port ≡ none
      → env.serve_grpc ≡ none
      → env.listen_and_serve cfg.server.health_port ≡ none
      → (s : Running F B W) × (start env ≡ running s) × Fresh cfg pool s
  unfolding start after_logger after_config after_database
  start-running cfg pool rules version logs configured connected found numbered listens served
        http_served =
      let store = env.rule_store pool in
      elim (load-Updated store new_rule_engine) [
        | inr (e, failed, same) ↦
            absurd
              (let fine = load_succeeds store new_rule_engine rules version found numbered in cc)
        | inl (fine, holds) ↦
            let (s, runs, fresh) =
              runs-after_load cfg pool (load store new_rule_engine) fine holds listens served
                http_served in
            (
              s,
              ap (after_logger env) logs
                  ∙ (ap (after_config env) configured
                      ∙ (ap (after_database env cfg) connected ∙ runs)),
              fresh,
            )
      ]

  served_by :
      (made : Running F B W) (grpc http : Option Error) (s : Running F B W)
      → after_serve env made grpc http ≡ running s
      → (grpc ≡ none) × (http ≡ none) × (made ≡ s)
  unfolding after_serve after_http
  served_by made (some e) http s h = absurd (cc)
  served_by made none (some e) s h = absurd (cc)
  served_by made none none s h = (refl, refl, cc)

  listened :
      (made : Running F B W) (error : Option Error) (s : Running F B W)
      → after_listen env made error ≡ running s
      → (error ≡ none)
        × (env.serve_grpc ≡ none)
        × (env.listen_and_serve made.config.server.health_port ≡ none)
        × (made ≡ s)
  unfolding after_listen
  listened made none s h =
      let (grpc, http, same) =
        served_by made env.serve_grpc (env.listen_and_serve made.config.server.health_port) s h in
      (refl, grpc, http, same)
  listened made (some e) s h = absurd (cc)

  running-after_load :
      (cfg : Config F) (pool : P) (done : RuleEngine F × Option Error) (s : Running F B W)
      → Updated (env.rule_store pool) new_rule_engine done
      → after_load env cfg done ≡ running s
      → (s.config ≡ cfg)
        × Holds (env.rule_store pool) s.engine
        × (env.listen cfg.server.grpc_port ≡ none)
        × (env.serve_grpc ≡ none)
        × (env.listen_and_serve cfg.server.health_port ≡ none)
  unfolding after_load
  running-after_load cfg pool (engine, some e) s updated h = absurd (cc)
  running-after_load cfg pool (engine, none) s (inr (e, failed, same)) h = absurd (cc)
  running-after_load cfg pool (engine, none) s (inl (fine, holds)) h =
      let (listens, grpc, http, made) = listened _ (env.listen cfg.server.grpc_port) s h in
      (sym (ap (λ r. r.config) made), rw (← made) holds, listens, grpc, http)

  -- If the service runs, then the logger was made, its configuration is one that `Load` lets through,
  -- with a port of gRPC from 1 to 65535 at which it could listen, neither serving gRPC nor serving HTTP
  -- at the configuration's health port has failed, the database of this configuration answers, and the engine holds the rules and the version that it answers, with their index.
  pub running-start :
      (s : Running F B W)
      → start env ≡ running s
      → (env.logger_init ≡ none)
        × (Settings.load env.environment env.ratio ≡ ok s.config)
        × (is_port s.config.server.grpc_port ≡ true)
        × (env.listen s.config.server.grpc_port ≡ none)
        × (env.serve_grpc ≡ none)
        × (env.listen_and_serve s.config.server.health_port ≡ none)
        × ((pool : P) × (init_database env.pgx s.config.database ≡ ok pool)
            × Holds (env.rule_store pool) s.engine)
  unfolding start after_logger after_config after_database
  running-start s h = elim (Option-cases env.logger_init) [
    | inr (e, logs) ↦ absurd (let failed = sym (ap (after_logger env) logs) ∙ h in cc)
    | inl logs ↦
        let from_config = sym (ap (after_logger env) logs) ∙ h in
        elim (Result-cases (Settings.load env.environment env.ratio)) [
          | inr (e, configured) ↦
              absurd (let failed = sym (ap (after_config env) configured) ∙ from_config in cc)
          | inl (cfg, configured) ↦
              let from_database = sym (ap (after_config env) configured) ∙ from_config in
              elim (Result-cases (init_database env.pgx cfg.database)) [
                | inr (e, connected) ↦
                    absurd (
                      let failed = sym (ap (after_database env cfg) connected) ∙ from_database in
                      cc)
                | inl (pool, connected) ↦
                    let (same, holds, listens, grpc, http) =
                      running-after_load cfg pool (load (env.rule_store pool) new_rule_engine) s
                        (load-Updated (env.rule_store pool) new_rule_engine)
                        (sym (ap (after_database env cfg) connected) ∙ from_database) in
                    rw same (
                      logs,
                      configured,
                      load-is_port env.environment env.ratio cfg configured,
                      listens,
                      grpc,
                      http,
                      (pool, connected, holds),
                    )
              ]
        ]
  ]
