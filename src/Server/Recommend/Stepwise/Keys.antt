-- ===== src/Server/Recommend/Stepwise/Keys.antt =====
-- The cache key of a request while it waits to look it up and to evaluate.
use ctse_mood_rule_service.Common.{
  String, Option, none, some, List, [], ◌∷◌, ◌≡◌, refl, Error, Result, ok, err, Result-cases, inl,
  inr,
}
use ctse_mood_rule_service.Float.{Float64}
use ctse_mood_rule_service.Model.{Rule, Product}
use ctse_mood_rule_service.Engine.{EvaluationStats}
use ctse_mood_rule_service.Cache.{CacheKey}
use ctse_mood_rule_service.Server.{
  UserContext, Client, no_client, nil_pointer, client, GetUserMood, Server, validate_request,
  Checked, not_cached, unreadable, cached, no_metadata, generate_cache_key, check_cache,
}
use ctse_mood_rule_service.Server.Recommend.{GetProductsByFilters, Surroundings, trace_of}
use ctse_mood_rule_service.Server.Recommend.Stepwise.{
  Pc, arrived, fetched, keyed, missed, evaluated, storing, replied, begin_mood, begin, looked_up,
  matched, got_products, ask_products, advance,
}

-- What holds of the key of a request that waits.
abbrev pub KeyHas : {F : Type 0} → (CacheKey → Type 0) → Pc F → Type 0
KeyHas P arrived = Unit {0}
KeyHas P (fetched mood) = Unit {0}
KeyHas P (keyed mood key) = P key
KeyHas P (missed mood key) = P key
KeyHas P (evaluated key rules stats) = Unit {0}
KeyHas P (storing key r) = Unit {0}
KeyHas P (replied reply) = Unit {0}

module _ {F B : Type 0} ⦃fl : Float64 F⦄ (P : CacheKey → Type 0) (env : Surroundings F B)
    (req : UserContext) where
  begin-KeyHas : (e : Option Error) (c : Client GetUserMood) → KeyHas P (begin env req e c)
  unfolding begin begin_mood
  begin-KeyHas (some e) c = tt
  begin-KeyHas none no_client = tt
  begin-KeyHas none nil_pointer = tt
  begin-KeyHas none (client f) = elim (Result-cases (f req.user_id (trace_of env req))) [
    | inl (mood, e) ↦ rw e tt
    | inr (x, e) ↦ rw e tt
  ]

  looked_up-KeyHas :
      (mood : String) (key : CacheKey) (c : Checked F)
      → P key
      → KeyHas P (looked_up env req mood key c)
  unfolding looked_up
  looked_up-KeyHas mood key (cached r) h = tt
  looked_up-KeyHas mood key no_metadata h = tt
  looked_up-KeyHas mood key not_cached h = h
  looked_up-KeyHas mood key (unreadable e) h = h

  matched-KeyHas :
      (key : CacheKey) (rules : List (Rule F)) (stats : EvaluationStats)
      → KeyHas P (matched env req key rules stats)
  unfolding matched
  matched-KeyHas key [] stats = tt
  matched-KeyHas key (rule ∷ rules) stats = tt

  got_products-KeyHas :
      (key : CacheKey) (rules : List (Rule F)) (stats : EvaluationStats)
      (answer : Result (List (Product F)))
      → KeyHas P (got_products env req key rules stats answer)
  unfolding got_products
  got_products-KeyHas key rules stats (err e) = tt
  got_products-KeyHas key rules stats (ok products) = tt

  ask_products-KeyHas :
      (key : CacheKey) (rules : List (Rule F)) (stats : EvaluationStats)
      (c : Client (GetProductsByFilters F))
      → KeyHas P (ask_products env req key rules stats c)
  unfolding ask_products
  ask_products-KeyHas key rules stats no_client = tt
  ask_products-KeyHas key rules stats nil_pointer = tt
  ask_products-KeyHas key rules stats (client f) = got_products-KeyHas key rules stats _

  -- A step keeps it, if it holds of the keys that have the version of the engine.
  pub advance-KeyHas :
      (pc : Pc F) (s : Server F B (GetProductsByFilters F))
      → ((key : CacheKey) → key.rule_version ≡ s.engine.version → P key)
      → KeyHas P pc
      → KeyHas P (advance env req pc s).0
  unfolding advance generate_cache_key
  advance-KeyHas arrived s now h = begin-KeyHas (validate_request req) s.auth_client
  advance-KeyHas (fetched mood) s now h = now _ refl
  advance-KeyHas (keyed mood key) s now h =
      looked_up-KeyHas mood key (check_cache env.json env.cache_get_time key s) h
  advance-KeyHas (missed mood key) s now h = matched-KeyHas key _ _
  advance-KeyHas (evaluated key rules stats) s now h =
      ask_products-KeyHas key rules stats s.product_client
  advance-KeyHas (storing key r) s now h = tt
  advance-KeyHas (replied reply) s now h = tt
