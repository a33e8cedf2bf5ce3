-- ===== src/Server/Recommend/Stepwise/Provenance.antt =====
-- Where a request's response comes from, if other threads change the engine and the cache between its
-- steps.
use ctse_mood_rule_service.Common.{
  String, ◌≡◌, refl, ◌⊎◌, inl, inr, Option, none, some, List, [], ◌∷◌, Error, ok, Result-cases,
}
use ctse_mood_rule_service.Float.{Float64}
use ctse_mood_rule_service.Model.{Rule, Product}
use ctse_mood_rule_service.Engine.{RuleEngine, EvaluationStats, evaluate}
use ctse_mood_rule_service.Cache.{CacheKey, key_string, MemoryCache, Json, get}
use ctse_mood_rule_service.Cache.Values.{AllGood, set-AllGood, get-AllGood}
use ctse_mood_rule_service.Ranking.{score_products}
use ctse_mood_rule_service.Filters.{aggregate_filters}
use ctse_mood_rule_service.Server.{
  UserContext, ProductRecommendations, Client, no_client, nil_pointer, client, GetUserMood, Reply,
  response, failed, panicked, Server, validate_request, Checked, not_cached, unreadable, cached,
  no_metadata, generate_cache_key, check_data, check_cache,
}
use ctse_mood_rule_service.Server.Recommend.{
  GetProductsByFilters, Surroundings, build_response, trace_of,
}
use ctse_mood_rule_service.Server.Recommend.Explaining.{context_of}
use ctse_mood_rule_service.Server.Recommend.Stepwise.{
  Pc, arrived, fetched, keyed, missed, evaluated, storing, replied, begin_mood, begin, looked_up,
  matched, got_products, ask_products, advance,
}

module _ {F : Type 0} (B : Type 0) ⦃fl : Float64 F⦄ (Seen : CacheKey → RuleEngine F → Type 0)
    (auth : Client GetUserMood) (catalog : Client (GetProductsByFilters F)) where
  -- The mood is what the auth service answers to the request.
  abbrev pub HasMood : Surroundings F B → UserContext → String → Type 0
  HasMood env req mood =
      (get_user_mood : GetUserMood) × (auth ≡ client get_user_mood)
      × (get_user_mood req.user_id (trace_of env req) ≡ ok mood)

  -- The key is made of the user's mood and of what the request says, and of some version.
  pub record Names (env : Surroundings F B) (req : UserContext) (mood : String) (key : CacheKey)
      : Type 0 where
    pub has_mood : HasMood env req mood
    pub same_mood : key.mood ≡ mood
    pub time_of_day : key.time_of_day ≡ req.time_of_day
    pub weather : key.weather ≡ req.weather
    pub segment : key.segment ≡ req.user_id

  -- What `Evaluate` gives to a request with this key, at one moment of an engine that was seen for it.
  pub record Snapshot (env : Surroundings F B) (req : UserContext) (mood : String) (key : CacheKey)
      (rules : List (Rule F)) (stats : EvaluationStats) : Type 0 where
    pub engine : RuleEngine F
    pub seen : Seen key engine
    pub rules_of : rules ≡ (evaluate env.slice engine (context_of mood req) env.evaluate_duration).0
    pub stats_of : stats ≡ (evaluate env.slice engine (context_of mood req) env.evaluate_duration).1

  -- The response is that of rules that match nothing, or of what the catalog answers for them.
  abbrev pub IsResponse :
      Surroundings F B
      → UserContext
      → List (Rule F)
      → EvaluationStats
      → ProductRecommendations F
      → Type 0
  IsResponse env req rules stats r =
      ((rules ≡ []) × (r ≡ build_response env [] (trace_of env req) stats))
      ⊎ ((get_products : GetProductsByFilters F) × (products : List (Product F)) × (catalog
            ≡ client get_products)
          × (get_products (aggregate_filters env.order rules) 50 (trace_of env req) ≡ ok products)
          × (r ≡ build_response env (score_products products rules) (trace_of env req) stats))

  -- Some request computed the response for a key that names what it asked for, from one snapshot.
  pub record Computed (key : CacheKey) (r : ProductRecommendations F) : Type 0 where
    pub env : Surroundings F B
    pub req : UserContext
    pub mood : String
    pub rules : List (Rule F)
    pub stats : EvaluationStats
    pub names : Names env req mood key
    pub snapshot : Snapshot env req mood key rules stats
    pub answer : IsResponse env req rules stats r

  -- The bytes at a key of the cache are those of a response that was computed for a key of this string.
  pub record Stored (k : String) (bytes : B) : Type 0 where
    pub key : CacheKey
    pub answer : ProductRecommendations F
    pub json : Json (ProductRecommendations F) B
    pub same_key : key_string key ≡ k
    pub computed : Computed key answer
    pub marshalled : json.marshal answer ≡ ok bytes

  abbrev pub CacheSound : MemoryCache B → Type 0
  CacheSound = AllGood Stored

  -- A response that was computed, or what the cache gives back of one.
  abbrev pub Explained : Surroundings F B → CacheKey → ProductRecommendations F → Type 0
  Explained env key r =
      Computed key r
      ⊎ ((bytes : B) × Stored (key_string key) bytes
          × (check_data env.json (some bytes) ≡ cached r))

  -- `KeyGood` is what else is known of the key that a request has made.
  module _ (KeyGood : CacheKey → Type 0) (env : Surroundings F B) (req : UserContext) where
    abbrev pub Has : String → CacheKey → Type 0
    Has mood key = Names env req mood key × KeyGood key

    abbrev pub ReplySound : Reply F → Type 0
    ReplySound (response r) =
        (mood : String) × (key : CacheKey) × Has mood key × Explained env key r
    ReplySound (failed status) = Unit {0}
    ReplySound panicked = Unit {0}

    abbrev pub PcSound : Pc F → Type 0
    PcSound arrived = Unit {0}
    PcSound (fetched mood) = HasMood env req mood
    PcSound (keyed mood key) = Has mood key
    PcSound (missed mood key) = Has mood key
    PcSound (evaluated key rules stats) =
        (mood : String) × Has mood key × Snapshot env req mood key rules stats
    PcSound (storing key r) = (mood : String) × Has mood key × Computed key r
    PcSound (replied reply) = ReplySound reply

    begin-PcSound :
        (e : Option Error) (c : Client GetUserMood) → auth ≡ c → PcSound (begin env req e c)
    unfolding begin begin_mood
    begin-PcSound (some e) c same = tt
    begin-PcSound none no_client same = tt
    begin-PcSound none nil_pointer same = tt
    begin-PcSound none (client f) same = elim (Result-cases (f req.user_id (trace_of env req))) [
      | inl (mood, e) ↦ rw e (f, same, e)
      | inr (x, e) ↦ rw e tt
    ]

    checked-PcSound :
        (mood : String) (key : CacheKey) (bytes : B) (c : Checked F)
        → check_data env.json (some bytes) ≡ c
        → Has mood key
        → Stored (key_string key) bytes
        → PcSound (looked_up env req mood key c)
    unfolding looked_up
    checked-PcSound mood key bytes (cached r) e n stored = (mood, key, n, inr (bytes, stored, e))
    checked-PcSound mood key bytes no_metadata e n stored = tt
    checked-PcSound mood key bytes not_cached e n stored = n
    checked-PcSound mood key bytes (unreadable x) e n stored = n

    looked_up-PcSound :
        (mood : String) (key : CacheKey) (found : Option B)
        → Has mood key
        → ((bytes : B) → found ≡ some bytes → Stored (key_string key) bytes)
        → PcSound (looked_up env req mood key (check_data env.json found))
    unfolding looked_up check_data
    looked_up-PcSound mood key none n stored = n
    looked_up-PcSound mood key (some bytes) n stored =
        checked-PcSound mood key bytes (check_data env.json (some bytes)) refl n (stored bytes refl)

    matched-PcSound :
        (mood : String) (key : CacheKey) (rules : List (Rule F)) (stats : EvaluationStats)
        → Has mood key
        → Snapshot env req mood key rules stats
        → PcSound (matched env req key rules stats)
    unfolding matched
    matched-PcSound mood key [] stats n snapshot = (
      mood,
      key,
      n,
      inl (record {
        env = env;
        req = req;
        mood = mood;
        rules = [];
        stats = stats;
        names = n.0;
        snapshot = snapshot;
        answer = inl (refl, refl);
      }),
    )
    matched-PcSound mood key (rule ∷ rules) stats n snapshot = (mood, n, snapshot)

    ask_products-PcSound :
        (mood : String) (key : CacheKey) (rules : List (Rule F)) (stats : EvaluationStats)
        (c : Client (GetProductsByFilters F))
        → catalog ≡ c
        → Has mood key
        → Snapshot env req mood key rules stats
        → PcSound (ask_products env req key rules stats c)
    unfolding ask_products got_products
    ask_products-PcSound mood key rules stats no_client same n snapshot = tt
    ask_products-PcSound mood key rules stats nil_pointer same n snapshot = tt
    ask_products-PcSound mood key rules stats (client f) same n snapshot =
        elim (Result-cases (f (aggregate_filters env.order rules) 50 (trace_of env req))) [
          | inr (x, e) ↦ rw e tt
          | inl (products, e) ↦ rw e (
            mood,
            n,
            record {
              env = env;
              req = req;
              mood = mood;
              rules = rules;
              stats = stats;
              names = n.0;
              snapshot = snapshot;
              answer = inr (f, products, same, e, refl);
            },
          )
        ]

    -- A step keeps it, if the engine of the moment is seen for the key that waits for it, its version
    -- makes a good key, and the cache holds what was computed.
    pub advance-PcSound :
        (pc : Pc F) (s : Server F B (GetProductsByFilters F))
        → ((key : CacheKey) (mood : String) → pc ≡ missed mood key → Seen key s.engine)
        → ((key : CacheKey) → key.rule_version ≡ s.engine.version → KeyGood key)
        → auth ≡ s.auth_client
        → catalog ≡ s.product_client
        → CacheSound s.cache
        → PcSound pc
        → PcSound (advance env req pc s).0
    unfolding advance generate_cache_key check_cache
    advance-PcSound arrived s seen now asks same sound h =
        begin-PcSound (validate_request req) s.auth_client asks
    advance-PcSound (fetched mood) s seen now asks same sound h = (
      record { has_mood = h; same_mood = refl; time_of_day = refl; weather = refl; segment = refl },
      now _ refl,
    )
    advance-PcSound (keyed mood key) s seen now asks same sound h =
        looked_up-PcSound mood key (get env.cache_get_time key s.cache) h
          (λ bytes found. get-AllGood Stored env.cache_get_time key s.cache bytes sound found)
    advance-PcSound (missed mood key) s seen now asks same sound h =
        matched-PcSound mood key _ _ h (record {
          engine = s.engine;
          seen = seen key mood refl;
          rules_of = refl;
          stats_of = refl;
        })
    advance-PcSound (evaluated key rules stats) s seen now asks same sound (mood, n, snapshot) =
        ask_products-PcSound mood key rules stats s.product_client same n snapshot
    advance-PcSound (storing key r) s seen now asks same sound (mood, n, computed) =
        (mood, key, n, inl computed)
    advance-PcSound (replied reply) s seen now asks same sound h = h

    pub advance-CacheSound :
        (pc : Pc F) (s : Server F B (GetProductsByFilters F))
        → CacheSound s.cache
        → PcSound pc
        → CacheSound (advance env req pc s).1.cache
    unfolding advance
    advance-CacheSound (storing key r) s sound (mood, n, computed) =
        set-AllGood Stored env.json env.cache_set_time key r s.cache sound (λ bytes e. record {
          key = key;
          answer = r;
          json = env.json;
          same_key = refl;
          computed = computed;
          marshalled = e;
        })
    advance-CacheSound arrived s sound h = sound
    advance-CacheSound (fetched mood) s sound h = sound
    advance-CacheSound (keyed mood key) s sound h = sound
    advance-CacheSound (missed mood key) s sound h = sound
    advance-CacheSound (evaluated key rules stats) s sound h = sound
    advance-CacheSound (replied reply) s sound h = sound
