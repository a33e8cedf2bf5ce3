-- ===== src/Server/Recommend.antt =====
-- `Recommend` of internal/grpc/server.go, cut where it returns early: each part gets the values
-- that the code before it has computed.
pub mod Answers
pub mod Failing
pub mod Caching
pub mod Again
pub mod Explaining
pub mod Stepwise
use Prim.Native.Nat.{◌/◌}
use ctse_mood_rule_service.Common.{
  ℕ, ◌-◌, String, Bool, true, false, Option, none, some, List, [], ◌∷◌, ◌++◌, ◌==◌, if◌then◌else◌,
  Error, errorf, wrap, Result, ok, err,
}
use ctse_mood_rule_service.Common.Int.{ℤ, pos, to_int32}
use ctse_mood_rule_service.Common.Decimal.{format_int}
use ctse_mood_rule_service.Float.{Float64}
use ctse_mood_rule_service.Model.{Rule, MatchContext, Product}
use ctse_mood_rule_service.Sort.{SortSlice}
use ctse_mood_rule_service.Engine.{EvaluationStats, evaluate}
use ctse_mood_rule_service.Cache.{CacheKey, Json, set}
use ctse_mood_rule_service.Ranking.{ProductRecommendation, score_products}
use ctse_mood_rule_service.Filters.{MapRange, Filters, aggregate_filters}
use ctse_mood_rule_service.Server.{
  UserContext, ProductRecommendations, Client, no_client, nil_pointer, client, GetUserMood, Code,
  invalid_argument, failed_precondition, internal, unavailable, Status, Reply, response, failed,
  panicked, Event, requests_total, errors_total, cache_hit, cache_miss, request_duration,
  rule_evaluation_duration, rules_matched, Server, validate_request, Checked, not_cached,
  unreadable, cached, no_metadata, generate_cache_key, check_cache,
}

-- What a call of `GetProductsByFilters` answers: the filters, the limit, the trace.
abbrev pub GetProductsByFilters : Type 0 → Type 0
GetProductsByFilters F = Filters F → ℕ → String → Result (List (Product F))

-- What surrounds one call: a fresh UUID as it prints, the moments (in nanoseconds, on the monotonic
-- clock) at which the code reads the time, the libraries, and the order of the map ranges.
pub record Surroundings (F B : Type 0) : Type 0 where
  pub new_uuid : String
  pub start_time : ℕ
  pub cache_get_time : ℕ
  pub eval_start : ℕ
  pub eval_end : ℕ
  -- what `Evaluate` measures of itself
  pub evaluate_duration : ℕ
  pub cache_set_time : ℕ
  pub end_time : ℕ
  pub json : Json (ProductRecommendations F) B
  pub slice : SortSlice (Rule F)
  pub order : MapRange

-- The answer, the server afterwards, and the changes of the metrics in their order.
abbrev pub Step : Type 0 → Type 0 → Type 0
Step F B = Reply F × Server F B (GetProductsByFilters F) × List Event

-- `Duration.Milliseconds`
pub milliseconds : ℕ → ℕ → ℕ
milliseconds from to = (to - from) / 1_000_000

module _ {F B : Type 0} ⦃fl : Float64 F⦄ (env : Surroundings F B) where
  pub fails : Code → Error → List Event → Server F B (GetProductsByFilters F) → Step F B
  fails code message events s = (failed (record { code = code; message = message }), s, events)

  -- the two metrics of a call that answers a response
  pub finish : String → List Event
  unfolding milliseconds
  finish label =
      request_duration label (milliseconds env.start_time env.end_time) ∷ requests_total label ∷ []

  -- The response literal, of which the code has two copies.
  pub build_response :
      List (ProductRecommendation F) → String → EvaluationStats → ProductRecommendations F
  unfolding milliseconds to_int32 format_int
  build_response ranked trace_id stats = record {
    recommendations = ranked;
    trace_id = trace_id;
    metadata = some (record {
      rules_evaluated = to_int32 stats.rules_evaluated;
      rules_matched = to_int32 stats.rules_matched;
      from_cache = false;
      evaluation_time_ms = milliseconds env.eval_start env.eval_end;
      rule_version = format_int stats.version;
    });
  }

  -- From the answer of the product catalog on.
  pub with_products :
      String
      → CacheKey
      → List (Rule F)
      → EvaluationStats
      → Result (List (Product F))
      → Server F B (GetProductsByFilters F)
      → Step F B
  unfolding fails finish build_response score_products set
  with_products trace_id key rules stats (err e) s =
      fails internal (wrap "failed to fetch products" e) (requests_total "product_error" ∷ []) s
  with_products trace_id key rules stats (ok products) s =
      let r = build_response (score_products products rules) trace_id stats in
      (
        response r,
        record s { cache = (set env.json env.cache_set_time key r s.cache).0 },
        finish "success",
      )

  -- From the rules that matched on, if there are some.
  pub fetch_products :
      String
      → CacheKey
      → List (Rule F)
      → EvaluationStats
      → Client (GetProductsByFilters F)
      → Server F B (GetProductsByFilters F)
      → Step F B
  unfolding fails with_products aggregate_filters
  fetch_products trace_id key rules stats no_client s =
      fails unavailable (errorf "Product Catalog Service is currently unavailable")
        (requests_total "product_unavailable" ∷ []) s
  fetch_products trace_id key rules stats nil_pointer s = (panicked, s, [])
  fetch_products trace_id key rules stats (client get_products) s =
      with_products trace_id key rules stats
        (get_products (aggregate_filters env.order rules) 50 trace_id) s

  -- `len(matchedRules) == 0`
  pub with_rules :
      String
      → CacheKey
      → List (Rule F)
      → EvaluationStats
      → Server F B (GetProductsByFilters F)
      → Step F B
  unfolding finish build_response fetch_products
  with_rules trace_id key [] stats s =
      (response (build_response [] trace_id stats), s, finish "no_matches")
  with_rules trace_id key (rule ∷ rules) stats s =
      fetch_products trace_id key (rule ∷ rules) stats s.product_client s

  -- The metrics of what came before in the call, in front of those of the rest.
  pub after : List Event → Step F B → Step F B
  after events (reply, s, more) = (reply, s, events ++ more)

  -- From a miss of the cache on.
  pub evaluate_rules :
      String → String → CacheKey → UserContext → Server F B (GetProductsByFilters F) → Step F B
  unfolding milliseconds evaluate with_rules after
  evaluate_rules trace_id mood key req s =
      let match_ctx : MatchContext = record {
        mood = mood;
        time_of_day = req.time_of_day;
        weather = req.weather;
        occasion = req.occasion;
        preferences = req.user_preferences;
        purchase_history_tags = req.purchase_history_tags;
      } in
      let evaluated = evaluate env.slice s.engine match_ctx env.evaluate_duration in
      after
        (cache_miss
          ∷ rule_evaluation_duration (milliseconds env.eval_start env.eval_end)
          ∷ rules_matched evaluated.1.rules_matched
          ∷ [])
        (with_rules trace_id key evaluated.0 evaluated.1 s)

  -- From the check of the cache on: a failure of it is logged and counts as a miss.
  pub with_cached :
      String
      → String
      → CacheKey
      → UserContext
      → Checked F
      → Server F B (GetProductsByFilters F)
      → Step F B
  unfolding finish evaluate_rules
  with_cached trace_id mood key req (cached r) s = (response r, s, cache_hit ∷ finish "success")
  with_cached trace_id mood key req no_metadata s = (panicked, s, [])
  with_cached trace_id mood key req not_cached s = evaluate_rules trace_id mood key req s
  with_cached trace_id mood key req (unreadable e) s = evaluate_rules trace_id mood key req s

  -- From the answer of the auth service on.
  pub with_mood :
      String → UserContext → Result String → Server F B (GetProductsByFilters F) → Step F B
  unfolding fails generate_cache_key check_cache with_cached
  with_mood trace_id req (err e) s =
      fails internal (wrap "failed to fetch user mood" e) (requests_total "auth_error" ∷ []) s
  with_mood trace_id req (ok mood) s =
      let key = generate_cache_key s mood req.time_of_day req.weather req.user_id in
      with_cached trace_id mood key req (check_cache env.json env.cache_get_time key s) s

  pub fetch_mood :
      String → UserContext → Client GetUserMood → Server F B (GetProductsByFilters F) → Step F B
  unfolding fails with_mood
  fetch_mood trace_id req no_client s =
      fails failed_precondition (errorf "Auth Service is required to fetch user mood")
        (requests_total "auth_unavailable" ∷ []) s
  fetch_mood trace_id req nil_pointer s = (panicked, s, [])
  fetch_mood trace_id req (client get_user_mood) s =
      with_mood trace_id req (get_user_mood req.user_id trace_id) s

  pub validated :
      String → UserContext → Option Error → Server F B (GetProductsByFilters F) → Step F B
  unfolding fails fetch_mood
  validated trace_id req (some e) s =
      fails invalid_argument (wrap "invalid request" e)
        (requests_total "invalid_input" ∷ errors_total "validation" ∷ []) s
  validated trace_id req none s = fetch_mood trace_id req s.auth_client s

  -- The trace that the call works under.
  pub trace_of : UserContext → String
  trace_of req = if req.trace_id == "" then env.new_uuid else req.trace_id

  -- `Recommend`
  unfoldable pub recommend : UserContext → Server F B (GetProductsByFilters F) → Step F B
  unfolding validate_request validated trace_of
  recommend req s = validated (trace_of req) req (validate_request req) s
