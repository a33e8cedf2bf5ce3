-- ===== src/Server/Recommend/Explaining.antt =====
-- Where the recommendations of a response come from, and what the call leaves in the server.
use mathlib.Core.List.{Perm}
use ctse_mood_rule_service.Common.{
  String, ◌≡◌, refl, ap, ◌∙◌, Option, none, some, List, [], ◌∷◌, map, Error, Result, ok, err,
}
use ctse_mood_rule_service.Float.{Float64}
use ctse_mood_rule_service.Model.{Rule, MatchContext, Product}
use ctse_mood_rule_service.Engine.{EvaluationStats, evaluate}
use ctse_mood_rule_service.Cache.{CacheKey, set}
use ctse_mood_rule_service.Ranking.{to_recommendation, score_products}
use ctse_mood_rule_service.Ranking.Laws.{scored_entry, score_products-perm}
use ctse_mood_rule_service.Filters.{aggregate_filters}
use ctse_mood_rule_service.Server.{
  UserContext, ProductRecommendations, Client, no_client, nil_pointer, client, GetUserMood,
  response, Server, validate_request, Checked, not_cached, unreadable, cached, no_metadata,
  generate_cache_key, check_cache,
}
use ctse_mood_rule_service.Server.Recommend.{
  GetProductsByFilters, Surroundings, fails, build_response, with_products, fetch_products,
  with_rules, after, evaluate_rules, with_cached, with_mood, fetch_mood, validated, trace_of,
  recommend,
}

abbrev pub context_of : String → UserContext → MatchContext
context_of mood req = record {
  mood = mood;
  time_of_day = req.time_of_day;
  weather = req.weather;
  occasion = req.occasion;
  preferences = req.user_preferences;
  purchase_history_tags = req.purchase_history_tags;
}

module _ {F B : Type 0} ⦃fl : Float64 F⦄ (env : Surroundings F B) (req : UserContext)
    (s : Server F B (GetProductsByFilters F)) where
  abbrev pub matched_rules : String → List (Rule F)
  matched_rules mood = (evaluate env.slice s.engine (context_of mood req) env.evaluate_duration).0

  abbrev pub key_of : String → CacheKey
  key_of mood = generate_cache_key s mood req.time_of_day req.weather req.user_id

  -- How a response comes about for a mood, and the server that the call leaves.
  pub data Explains (mood : String) (r : ProductRecommendations F)
      (s' : Server F B (GetProductsByFilters F)) : Type 0 where
    was_cached :
        check_cache env.json env.cache_get_time (key_of mood) s ≡ cached r
        → s' ≡ s
        → Explains mood r s'
    no_matches : matched_rules mood ≡ [] → r.recommendations ≡ [] → s' ≡ s → Explains mood r s'
    computed :
        (catalog : GetProductsByFilters F) (products : List (Product F))
        → s.product_client ≡ client catalog
        → catalog (aggregate_filters env.order (matched_rules mood)) 50 (trace_of env req)
          ≡ ok products
        → Perm r.recommendations
            (map (λ p. to_recommendation (scored_entry (matched_rules mood) p)) products)
        → s' ≡ record s { cache = (set env.json env.cache_set_time (key_of mood) r s.cache).0 }
        → Explains mood r s'

  module _ (mood : String) (r : ProductRecommendations F) where
    with_products-Explains :
        (rules : List (Rule F)) (stats : EvaluationStats) (catalog : GetProductsByFilters F)
        (answer : Result (List (Product F)))
        → matched_rules mood ≡ rules
        → s.product_client ≡ client catalog
        → catalog (aggregate_filters env.order rules) 50 (trace_of env req) ≡ answer
        → (with_products env (trace_of env req) (key_of mood) rules stats answer s).0 ≡ response r
        → Explains mood r
            (with_products env (trace_of env req) (key_of mood) rules stats answer s).1
    unfolding with_products fails build_response
    with_products-Explains rules stats catalog (err e) m c a h = absurd (cc)
    with_products-Explains rules stats catalog (ok products) m c a h =
        let same : build_response env (score_products products rules) (trace_of env req) stats ≡ r =
          cc in
        computed catalog products c (rw m a) (rw (m, ← same) (score_products-perm products rules)) (
          ap (λ x. record s { cache = (set env.json env.cache_set_time (key_of mood) x s.cache).0 })
            same)

    fetch_products-Explains :
        (rules : List (Rule F)) (stats : EvaluationStats) (c : Client (GetProductsByFilters F))
        → matched_rules mood ≡ rules
        → s.product_client ≡ c
        → (fetch_products env (trace_of env req) (key_of mood) rules stats c s).0 ≡ response r
        → Explains mood r (fetch_products env (trace_of env req) (key_of mood) rules stats c s).1
    unfolding fetch_products fails
    fetch_products-Explains rules stats no_client m c h = absurd (cc)
    fetch_products-Explains rules stats nil_pointer m c h = absurd (cc)
    fetch_products-Explains rules stats (client catalog) m c h =
        with_products-Explains rules stats catalog _ m c refl h

    with_rules-Explains :
        (rules : List (Rule F)) (stats : EvaluationStats)
        → matched_rules mood ≡ rules
        → (with_rules env (trace_of env req) (key_of mood) rules stats s).0 ≡ response r
        → Explains mood r (with_rules env (trace_of env req) (key_of mood) rules stats s).1
    unfolding with_rules build_response
    with_rules-Explains [] stats m h =
        let same : build_response env [] (trace_of env req) stats ≡ r = cc in
        no_matches m (rw (← same) refl) refl
    with_rules-Explains (rule ∷ rules) stats m h =
        fetch_products-Explains (rule ∷ rules) stats s.product_client m refl h

    evaluate_rules-Explains :
        (evaluate_rules env (trace_of env req) mood (key_of mood) req s).0 ≡ response r
        → Explains mood r (evaluate_rules env (trace_of env req) mood (key_of mood) req s).1
    unfolding evaluate_rules after
    evaluate_rules-Explains h = with_rules-Explains (matched_rules mood) _ refl h

    with_cached-Explains :
        (c : Checked F)
        → check_cache env.json env.cache_get_time (key_of mood) s ≡ c
        → (with_cached env (trace_of env req) mood (key_of mood) req c s).0 ≡ response r
        → Explains mood r (with_cached env (trace_of env req) mood (key_of mood) req c s).1
    unfolding with_cached
    with_cached-Explains (cached found) c h =
        let same : found ≡ r = cc in was_cached (c ∙ ap cached same) refl
    with_cached-Explains no_metadata c h = absurd (cc)
    with_cached-Explains not_cached c h = evaluate_rules-Explains h
    with_cached-Explains (unreadable e) c h = evaluate_rules-Explains h

  module _ (r : ProductRecommendations F) where
    with_mood-Explains :
        (answer : Result String)
        → (with_mood env (trace_of env req) req answer s).0 ≡ response r
        → (mood : String) × (answer ≡ ok mood)
          × Explains mood r (with_mood env (trace_of env req) req answer s).1
    unfolding with_mood fails
    with_mood-Explains (err e) h = absurd (cc)
    with_mood-Explains (ok mood) h = (mood, refl, with_cached-Explains mood r _ refl h)

    fetch_mood-Explains :
        (c : Client GetUserMood)
        → (fetch_mood env (trace_of env req) req c s).0 ≡ response r
        → (get_user_mood : GetUserMood) × (mood : String) × (c ≡ client get_user_mood)
          × (get_user_mood req.user_id (trace_of env req) ≡ ok mood)
          × Explains mood r (fetch_mood env (trace_of env req) req c s).1
    unfolding fetch_mood fails
    fetch_mood-Explains no_client h = absurd (cc)
    fetch_mood-Explains nil_pointer h = absurd (cc)
    fetch_mood-Explains (client f) h =
        let (mood, answered, explained) = with_mood-Explains (f req.user_id (trace_of env req)) h in
        (f, mood, refl, answered, explained)

    validated-Explains :
        (e : Option Error)
        → (validated env (trace_of env req) req e s).0 ≡ response r
        → (get_user_mood : GetUserMood) × (mood : String) × (s.auth_client ≡ client get_user_mood)
          × (get_user_mood req.user_id (trace_of env req) ≡ ok mood)
          × Explains mood r (validated env (trace_of env req) req e s).1
    unfolding validated fails
    validated-Explains (some e) h = absurd (cc)
    validated-Explains none h = fetch_mood-Explains s.auth_client h

    -- Every response comes about for the mood that the auth service answers for the user, whatever mood
    -- the request carries, in one of three ways: it is what the cache holds at the key of the call; or no rule matches, and it recommends
    -- nothing; or it recommends exactly the products that the catalog answers for the filters of the
    -- matched rules, each once, with the score and the names of the rules that share a tag with it. Only
    -- in the last case is the server changed, and only by a `Set` of the response at the key.
    pub recommend-Explains :
        (recommend env req s).0 ≡ response r
        → (get_user_mood : GetUserMood) × (mood : String) × (s.auth_client ≡ client get_user_mood)
          × (get_user_mood req.user_id (trace_of env req) ≡ ok mood)
          × Explains mood r (recommend env req s).1
    unfolding recommend
    recommend-Explains h = validated-Explains (validate_request req) h
