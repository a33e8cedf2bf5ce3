-- ===== src/Server/Recommend/Stepwise.antt =====
-- `Recommend` of internal/grpc/server.go as a thread: one step for each moment at which it reads or
-- writes what requests share, the engine under its lock and the cache under its mutex, and for each call
-- of another service. The changes of the metrics are in Server/Recommend.antt.
pub mod Alone
pub mod Provenance
pub mod Progress
pub mod Keys
use ctse_mood_rule_service.Common.{
  ℕ, zero, suc, String, Option, none, some, List, [], ◌∷◌, Error, errorf, wrap, Result, ok, err,
}
use ctse_mood_rule_service.Float.{Float64}
use ctse_mood_rule_service.Model.{Rule, Product}
use ctse_mood_rule_service.Engine.{EvaluationStats, evaluate}
use ctse_mood_rule_service.Cache.{CacheKey, set}
use ctse_mood_rule_service.Ranking.{score_products}
use ctse_mood_rule_service.Filters.{aggregate_filters}
use ctse_mood_rule_service.Server.{
  UserContext, ProductRecommendations, Client, no_client, nil_pointer, client, GetUserMood,
  invalid_argument, failed_precondition, internal, unavailable, Reply, response, failed, panicked,
  Server, validate_request, Checked, not_cached, unreadable, cached, no_metadata,
  generate_cache_key, check_cache,
}
use ctse_mood_rule_service.Server.Recommend.{
  GetProductsByFilters, Surroundings, build_response, trace_of,
}
use ctse_mood_rule_service.Server.Recommend.Explaining.{context_of}

-- Where a request stands, with the local variables that are live there.
pub data Pc (F : Type 0) : Type 0 where
  arrived : Pc F
  -- before `GetVersion`
  fetched : String → Pc F
  -- before the `Get` of the cache
  keyed : String → CacheKey → Pc F
  -- before `Evaluate`
  missed : String → CacheKey → Pc F
  -- before the call of the product catalog, with the rules that matched
  evaluated : CacheKey → List (Rule F) → EvaluationStats → Pc F
  -- before the `Set` of the cache
  storing : CacheKey → ProductRecommendations F → Pc F
  replied : Reply F → Pc F

module _ {F B : Type 0} ⦃fl : Float64 F⦄ (env : Surroundings F B) (req : UserContext) where
  pub begin_mood : Result String → Pc F
  begin_mood (err e) =
      replied (failed (record { code = internal; message = wrap "failed to fetch user mood" e }))
  begin_mood (ok mood) = fetched mood

  pub begin : Option Error → Client GetUserMood → Pc F
  unfolding begin_mood
  begin (some e) c =
      replied (failed (record { code = invalid_argument; message = wrap "invalid request" e }))
  begin none no_client = replied (
      failed (record {
        code = failed_precondition;
        message = errorf "Auth Service is required to fetch user mood";
      }))
  begin none nil_pointer = replied panicked
  begin none (client get_user_mood) = begin_mood (get_user_mood req.user_id (trace_of env req))

  pub looked_up : String → CacheKey → Checked F → Pc F
  looked_up mood key (cached r) = replied (response r)
  looked_up mood key no_metadata = replied panicked
  looked_up mood key not_cached = missed mood key
  looked_up mood key (unreadable e) = missed mood key

  pub matched : CacheKey → List (Rule F) → EvaluationStats → Pc F
  unfolding build_response
  matched key [] stats = replied (response (build_response env [] (trace_of env req) stats))
  matched key (rule ∷ rules) stats = evaluated key (rule ∷ rules) stats

  pub got_products : CacheKey → List (Rule F) → EvaluationStats → Result (List (Product F)) → Pc F
  unfolding build_response score_products
  got_products key rules stats (err e) =
      replied (failed (record { code = internal; message = wrap "failed to fetch products" e }))
  got_products key rules stats (ok products) =
      storing key (build_response env (score_products products rules) (trace_of env req) stats)

  pub ask_products :
      CacheKey → List (Rule F) → EvaluationStats → Client (GetProductsByFilters F) → Pc F
  unfolding got_products aggregate_filters
  ask_products key rules stats no_client = replied (
      failed (record {
        code = unavailable;
        message = errorf "Product Catalog Service is currently unavailable";
      }))
  ask_products key rules stats nil_pointer = replied panicked
  ask_products key rules stats (client get_products) =
      got_products key rules stats
        (get_products (aggregate_filters env.order rules) 50 (trace_of env req))

  -- One step: where the request stands afterwards, and what is shared.
  unfoldable pub advance :
      Pc F → Server F B (GetProductsByFilters F) → Pc F × Server F B (GetProductsByFilters F)
  unfolding begin validate_request generate_cache_key looked_up check_cache matched evaluate
      ask_products set
  advance arrived s = (begin (validate_request req) s.auth_client, s)
  advance (fetched mood) s =
      (keyed mood (generate_cache_key s mood req.time_of_day req.weather req.user_id), s)
  advance (keyed mood key) s =
      (looked_up mood key (check_cache env.json env.cache_get_time key s), s)
  advance (missed mood key) s =
      let (rules, stats) =
        evaluate env.slice s.engine (context_of mood req) env.evaluate_duration in
      (matched key rules stats, s)
  advance (evaluated key rules stats) s = (ask_products key rules stats s.product_client, s)
  advance (storing key r) s =
      (replied (response r), record s { cache = (set env.json env.cache_set_time key r s.cache).0 })
  advance (replied reply) s = (replied reply, s)

  -- So many steps with no other thread between them.
  unfoldable pub run :
      ℕ → Pc F → Server F B (GetProductsByFilters F) → Pc F × Server F B (GetProductsByFilters F)
  unfolding advance
  run zero pc s = (pc, s)
  run (suc n) pc s = let (pc', s') = advance pc s in run n pc' s'
