-- ===== src/Server/Recommend/Caching.antt =====
-- What the cache does to the answers of `Recommend`.
use ctse_mood_rule_service.Common.{
  ℕ, ◌+◌, ◌≤◌, String, Bool, true, false, ◌≡◌, refl, ap, ◌∙◌, Option, none, some, List, [], ◌∷◌,
  arith, ◌==◌, if◌then◌else◌, eq_iff, Result, ok, err, inl, inr, Result-cases,
}
use ctse_mood_rule_service.Float.{Float64}
use ctse_mood_rule_service.Model.{Rule, Product}
use ctse_mood_rule_service.Engine.{EvaluationStats}
use ctse_mood_rule_service.Cache.{CacheKey, MemoryCache, key_string, get, set, Json}
use ctse_mood_rule_service.Cache.Expiry.{get-set}
use ctse_mood_rule_service.Server.{
  UserContext, RecommendationMetadata, ProductRecommendations, Client, no_client, nil_pointer,
  client, GetUserMood, response, Server, validate_request, Checked, not_cached, unreadable, cached,
  no_metadata, mark_from_cache, read_cached, check_data, generate_cache_key, check_cache,
}
use ctse_mood_rule_service.Server.Recommend.{
  GetProductsByFilters, Surroundings, Step, fails, finish, with_products, fetch_products,
  with_rules, after, evaluate_rules, with_cached, with_mood, fetch_mood, validated, trace_of,
  recommend,
}
use ctse_mood_rule_service.Server.Recommend.Answers.{requests, is_one}

abbrev has_fresh : Option RecommendationMetadata → Bool
has_fresh none = false
has_fresh (some m) = if m.from_cache then false else true

-- The metadata say that the answer was computed.
abbrev pub is_fresh : {F : Type 0} → ProductRecommendations F → Bool
is_fresh r = has_fresh r.metadata

abbrev from_cache_metadata : Option RecommendationMetadata → Option RecommendationMetadata
from_cache_metadata none = none
from_cache_metadata (some m) = some (record m { from_cache = true })

-- The same answer, with the metadata saying that it is from the cache.
abbrev pub from_cache_copy : {F : Type 0} → ProductRecommendations F → ProductRecommendations F
from_cache_copy r = record r { metadata = from_cache_metadata r.metadata }

abbrev says_fresh : {F : Type 0} → Checked F → Bool
says_fresh (cached r) = is_fresh r
says_fresh _ = false

module _ {F : Type 0} where
  -- What comes from the cache is never marked as computed.
  mark_from_cache-stale :
      (r : ProductRecommendations F) (m : Option RecommendationMetadata)
      → says_fresh (mark_from_cache r m) ≡ false
  unfolding mark_from_cache
  mark_from_cache-stale r none = refl
  mark_from_cache-stale r (some m) = refl

  mark_from_cache-fresh :
      (r : ProductRecommendations F) (m : Option RecommendationMetadata)
      → has_fresh m ≡ true
      → mark_from_cache r m ≡ cached (record r { metadata = from_cache_metadata m })
  unfolding mark_from_cache
  mark_from_cache-fresh r none h = absurd (cc)
  mark_from_cache-fresh r (some m) h = refl

  module _ {B : Type 0} (json : Json (ProductRecommendations F) B) where
    check_data-stale : (bytes : Option B) → says_fresh (check_data json bytes) ≡ false
    unfolding check_data read_cached
    check_data-stale none = refl
    check_data-stale (some b) = elim (Result-cases (json.unmarshal b)) [
      | inl (r, u) ↦ rw (u, read_cached) (mark_from_cache-stale r r.metadata)
      | inr (x, u) ↦ rw (u, read_cached) refl
    ]

    check_data-stored :
        (bytes : B) (r : ProductRecommendations F)
        → json.unmarshal bytes ≡ ok r
        → is_fresh r ≡ true
        → check_data json (some bytes) ≡ cached (from_cache_copy r)
    unfolding check_data read_cached
    check_data-stored bytes r u h = rw (u, read_cached) (mark_from_cache-fresh r r.metadata h)

module _ {F B : Type 0} ⦃fl : Float64 F⦄ where
  -- If the step answers a computed `r` with success, then it has stored `r` under the key.
  abbrev Stores :
      Surroundings F B
      → CacheKey
      → ProductRecommendations F
      → Server F B (GetProductsByFilters F)
      → Step F B
      → Type 0
  Stores env key r s (reply, s', events) =
      reply ≡ response r
      → is_one "success" (requests events) ≡ true
      → is_fresh r ≡ true
      → s' ≡ record s { cache = (set env.json env.cache_set_time key r s.cache).0 }

  module _ (env : Surroundings F B) (trace_id : String) (key : CacheKey)
      (r : ProductRecommendations F) where
    with_products-Stores :
        (rules : List (Rule F)) (stats : EvaluationStats) (products : Result (List (Product F)))
        (s : Server F B (GetProductsByFilters F))
        → Stores env key r s (with_products env trace_id key rules stats products s)
    unfolding with_products fails
    with_products-Stores rules stats (err x) s e l h = absurd (cc)
    with_products-Stores rules stats (ok products) s e l h = cc

    fetch_products-Stores :
        (rules : List (Rule F)) (stats : EvaluationStats) (c : Client (GetProductsByFilters F))
        (s : Server F B (GetProductsByFilters F))
        → Stores env key r s (fetch_products env trace_id key rules stats c s)
    unfolding fetch_products fails
    fetch_products-Stores rules stats no_client s e l h = absurd (cc)
    fetch_products-Stores rules stats nil_pointer s e l h = absurd (cc)
    fetch_products-Stores rules stats (client f) s e l h =
        with_products-Stores rules stats _ s e l h

    with_rules-Stores :
        (rules : List (Rule F)) (stats : EvaluationStats) (s : Server F B (GetProductsByFilters F))
        → Stores env key r s (with_rules env trace_id key rules stats s)
    unfolding with_rules finish
    with_rules-Stores [] stats s e l h = absurd (cc)
    with_rules-Stores (rule ∷ rules) stats s e l h =
        fetch_products-Stores (rule ∷ rules) stats s.product_client s e l h

    with_cached-Stores :
        (mood : String) (req : UserContext) (c : Checked F)
        (s : Server F B (GetProductsByFilters F))
        → says_fresh c ≡ false
        → Stores env key r s (with_cached env trace_id mood key req c s)
    unfolding with_cached evaluate_rules after
    with_cached-Stores mood req (cached a) s n e l h = absurd (cc)
    with_cached-Stores mood req no_metadata s n e l h = absurd (cc)
    with_cached-Stores mood req not_cached s n e l h = with_rules-Stores _ _ s e l h
    with_cached-Stores mood req (unreadable x) s n e l h = with_rules-Stores _ _ s e l h

  -- A call with a user, whose mood the auth service answers, gets to the check of the cache.
  recommend_checks_cache :
      (env : Surroundings F B) (req : UserContext) (s : Server F B (GetProductsByFilters F))
      (f : GetUserMood) (mood : String)
      → (req.user_id == "") ≡ false
      → s.auth_client ≡ client f
      → f req.user_id (trace_of env req) ≡ ok mood
      → let key = generate_cache_key s mood req.time_of_day req.weather req.user_id in
        recommend env req s
        ≡ with_cached env
            (trace_of env req)
            mood
            key
            req
            (check_cache env.json env.cache_get_time key s)
            s
  unfolding recommend validate_request validated fetch_mood with_mood
  recommend_checks_cache env req s f mood u c a =
      let trace_id = trace_of env req in
      let user : validate_request req ≡ none = rw (u, validate_request) refl in
      ap (λ e. validated env trace_id req e s) user
      ∙ ap (λ x. fetch_mood env trace_id req x s) c
      ∙ ap (λ m. with_mood env trace_id req m s) a

  pub recommend-Stores :
      (env : Surroundings F B) (req : UserContext) (s : Server F B (GetProductsByFilters F))
      (f : GetUserMood) (mood : String) (r : ProductRecommendations F)
      → (req.user_id == "") ≡ false
      → s.auth_client ≡ client f
      → f req.user_id (trace_of env req) ≡ ok mood
      → Stores env
          (generate_cache_key s mood req.time_of_day req.weather req.user_id)
          r
          s
          (recommend env req s)
  unfolding check_cache
  recommend-Stores env req s f mood r u c a =
      let key = generate_cache_key s mood req.time_of_day req.weather req.user_id in
      rw (recommend_checks_cache env req s f mood u c a) (
        with_cached-Stores env (trace_of env req) key r mood req
          (check_cache env.json env.cache_get_time key s) s
          (check_data-stale env.json (get env.cache_get_time key s.cache)))

  -- What was set is found up to the end of its time to live.
  pub get_just_set :
      (json : Json (ProductRecommendations F) B) (key : CacheKey) (r : ProductRecommendations F)
      (bytes : B) (now later : ℕ) (c : MemoryCache B)
      → json.marshal r ≡ ok bytes
      → later ≤ now + c.ttl
      → get later key (set json now key r c).0 ≡ some bytes
  get_just_set json key r bytes now later c m l = ground (
    arith,
    (get-set c json key key r bytes now later m).1,
    eq_iff (key_string key) (key_string key),
  )

  -- What the call that finds a set answer does.
  pub recommend_finds :
      (env : Surroundings F B) (req : UserContext) (s : Server F B (GetProductsByFilters F))
      (f : GetUserMood) (mood : String) (r : ProductRecommendations F) (bytes : B)
      → (req.user_id == "") ≡ false
      → s.auth_client ≡ client f
      → f req.user_id (trace_of env req) ≡ ok mood
      → get env.cache_get_time
          (generate_cache_key s mood req.time_of_day req.weather req.user_id)
          s.cache
        ≡ some bytes
      → env.json.unmarshal bytes ≡ ok r
      → is_fresh r ≡ true
      → ((recommend env req s).0 ≡ response (from_cache_copy r)) × ((recommend env req s).1 ≡ s)
  unfolding check_cache with_cached
  recommend_finds env req s f mood r bytes u c a g j h =
      let key = generate_cache_key s mood req.time_of_day req.weather req.user_id in
      let found : recommend env req s
          ≡ with_cached env (trace_of env req) mood key req (cached (from_cache_copy r)) s =
        recommend_checks_cache env req s f mood u c a
        ∙ ap (λ x. with_cached env (trace_of env req) mood key req x s)
            (ap (check_data env.json) g ∙ check_data-stored env.json bytes r j h) in
      (ap (λ x. x.0) found, ap (λ x. x.1) found)
