-- ===== src/Service/Reachable.antt =====
-- The server of a running service under requests, updates of the rules and clean-ups of the cache that
-- interleave: a request up to its `Set` is one step, and so is the reload of the rules.
use ctse_mood_rule_service.Common.{
  ℕ, suc, String, ◌≡◌, refl, ◌⊎◌, inl, inr, none, some, List, ◌∷◌, ◌++◌, Error, IsMap, ◌∙◌,
}
use ctse_mood_rule_service.Common.Int.{ℤ}
use ctse_mood_rule_service.Float.{Float64}
use ctse_mood_rule_service.Engine.{RuleStore, new_rule_engine, load, reload}
use ctse_mood_rule_service.Engine.Index.{
  IsIndexed, load-IsIndexed, reload-IsIndexed, new_rule_engine-IsIndexed,
}
use ctse_mood_rule_service.Cache.{
  CacheKey, Json, new_memory_cache, set, invalidate_by_pattern, remove_expired,
}
use ctse_mood_rule_service.Cache.Entries.{
  set-IsMap, remove_expired-IsMap, invalidate_by_pattern-IsMap,
}
use ctse_mood_rule_service.Server.{
  UserContext, ProductRecommendations, Reply, response, failed, panicked, Server,
}
use ctse_mood_rule_service.Server.Recommend.{GetProductsByFilters, Surroundings, recommend}
use ctse_mood_rule_service.Server.Recommend.Answers.{recommend_counted}
use ctse_mood_rule_service.Server.Recommend.Explaining.{
  Explains, was_cached, no_matches, computed, key_of, recommend-Explains,
}

-- A response that a request has computed and not yet put into the cache.
pub record Computed (F B : Type 0) : Type 0 where
  pub json : Json (ProductRecommendations F) B
  pub at : ℕ
  pub key : CacheKey
  pub answer : ProductRecommendations F

-- The server, the requests that are about to call `Set`, and the number of rule updates that have
-- reloaded the engine and are about to invalidate the cache.
pub record State (F B : Type 0) : Type 0 where
  pub server : Server F B (GetProductsByFilters F)
  pub storing : List (Computed F B)
  pub invalidating : ℕ

module _ {F B : Type 0} where
  abbrev pub store_computed :
      Computed F B → Server F B (GetProductsByFilters F) → Server F B (GetProductsByFilters F)
  store_computed c s = record s { cache = (set c.json c.at c.key c.answer s.cache).0 }

  abbrev pub reload_server :
      RuleStore F → Server F B (GetProductsByFilters F) → Server F B (GetProductsByFilters F)
  reload_server store s = record s { engine = (reload store s.engine).0 }

module _ {F B : Type 0} ⦃fl : Float64 F⦄ where
  -- A step: a request that stores nothing; a request up to its `Set`, and this `Set`; the reload by the
  -- handler of rule updates, with what the database then answers, and its invalidation of the cache; a
  -- tick of the cache's clean-up.
  pub data Happens (s : State F B) : State F B → Type 0 where
    answers_only :
        (env : Surroundings F B) (req : UserContext)
        → (recommend env req s.server).1 ≡ s.server
        → Happens s s
    computes :
        (env : Surroundings F B) (req : UserContext) (c : Computed F B)
        → (recommend env req s.server).1 ≡ store_computed c s.server
        → Happens s (record s { storing = c ∷ s.storing })
    stores :
        (before : List (Computed F B)) (c : Computed F B) (later : List (Computed F B))
        → s.storing ≡ before ++ c ∷ later
        → Happens s (record s { server = store_computed c s.server; storing = before ++ later })
    fails_to_reload :
        (store : RuleStore F) (e : Error)
        → (reload store s.server.engine).1 ≡ some e
        → Happens s (record s { server = reload_server store s.server })
    reloads :
        (store : RuleStore F)
        → (reload store s.server.engine).1 ≡ none
        → Happens s
            (record s { server = reload_server store s.server; invalidating = suc s.invalidating })
    invalidates :
        (n : ℕ)
        → s.invalidating ≡ suc n
        → Happens s (record s {
          server = record s.server { cache = invalidate_by_pattern "*" s.server.cache };
          invalidating = n;
        })
    ticks :
        (now : ℕ)
        → Happens s
            (record s { server = record s.server { cache = remove_expired now s.server.cache } })

  pub data Reaches (s : State F B) : State F B → Type 0 where
    at_start : Reaches s s
    followed_by : {t u : State F B} → Reaches s t → Happens t u → Reaches s u

-- What the theorems on requests and on the cache ask for: the index of the engine is that of its rules,
-- and the cache holds each key once.
pub record IsSane {F B P : Type 0} (s : Server F B P) : Type 0 where
  pub indexed : IsIndexed s.engine
  pub one_entry : IsMap s.cache.store

module _ {F B : Type 0} ⦃fl : Float64 F⦄ where
  sets_of :
      (env : Surroundings F B) (req : UserContext) (s : Server F B (GetProductsByFilters F))
      (mood : String) (r : ProductRecommendations F) (s' : Server F B (GetProductsByFilters F))
      → Explains env req s mood r s'
      → (s' ≡ s)
        ⊎ ((key : CacheKey) × (r : ProductRecommendations F) × (s'
              ≡ record s { cache = (set env.json env.cache_set_time key r s.cache).0 }))
  sets_of env req s mood r s' (was_cached found same) = inl same
  sets_of env req s mood r s' (no_matches none_matched nothing same) = inl same
  sets_of env req s mood r s' (computed catalog products asked answered ranked changed) =
      inr (key_of env req s mood, r, changed)

  -- A call leaves the server as it was, or with one more `Set`.
  recommend-Sets :
      (env : Surroundings F B) (req : UserContext) (s : Server F B (GetProductsByFilters F))
      (reply : Reply F)
      → (recommend env req s).0 ≡ reply
      → ((recommend env req s).1 ≡ s)
        ⊎ ((key : CacheKey) × (r : ProductRecommendations F) × ((recommend env req s).1
              ≡ record s { cache = (set env.json env.cache_set_time key r s.cache).0 }))
  recommend-Sets env req s (response r) h =
      let (f, mood, asked, answered, explained) = recommend-Explains env req s r h in
      sets_of env req s mood r _ explained
  recommend-Sets env req s (failed status) h = elim ((recommend_counted env req s).1) [
    | inl is_response ↦ absurd (let answers = rw h at is_response in cc)
    | inr same ↦ inl same
  ]
  recommend-Sets env req s panicked h = elim ((recommend_counted env req s).1) [
    | inl is_response ↦ absurd (let answers = rw h at is_response in cc)
    | inr same ↦ inl same
  ]

  -- Every request has its step.
  pub request-Happens :
      (env : Surroundings F B) (req : UserContext) (s : State F B)
      → Happens s s ⊎ ((c : Computed F B) × Happens s (record s { storing = c ∷ s.storing }))
  request-Happens env req s = elim (recommend-Sets env req s.server _ refl) [
    | inl same ↦ inl (answers_only env req same)
    | inr (key, r, changed) ↦
        let c : Computed F B = record {
          json = env.json;
          at = env.cache_set_time;
          key = key;
          answer = r;
        } in
        inr (c, computes env req c changed)
  ]

  -- The server of a state that follows on another: it is sane, and has the same two clients.
  abbrev Follows : State F B → State F B → Type 0
  Follows s t =
      IsSane t.server
      × (t.server.auth_client ≡ s.server.auth_client)
      × (t.server.product_client ≡ s.server.product_client)

  reload_server-IsSane :
      (store : RuleStore F) (s : Server F B (GetProductsByFilters F))
      → IsSane s
      → IsSane (reload_server store s)
  reload_server-IsSane store s sane = record {
    indexed = reload-IsIndexed store s.engine sane.indexed;
    one_entry = sane.one_entry;
  }

  Happens-Follows : (s t : State F B) → IsSane s.server → Happens s t → Follows s t
  Happens-Follows s t sane (answers_only env req same) = (sane, refl, refl)
  Happens-Follows s t sane (computes env req c same) = (sane, refl, refl)
  Happens-Follows s t sane (stores before c later there) = (
    record {
      indexed = sane.indexed;
      one_entry = set-IsMap c.json c.at c.key c.answer s.server.cache sane.one_entry;
    },
    refl,
    refl,
  )
  Happens-Follows s t sane (fails_to_reload store e bad) =
      (reload_server-IsSane store s.server sane, refl, refl)
  Happens-Follows s t sane (reloads store fine) =
      (reload_server-IsSane store s.server sane, refl, refl)
  Happens-Follows s t sane (invalidates n some_left) = (
    record {
      indexed = sane.indexed;
      one_entry = invalidate_by_pattern-IsMap "*" s.server.cache sane.one_entry;
    },
    refl,
    refl,
  )
  Happens-Follows s t sane (ticks now) = (
    record {
      indexed = sane.indexed;
      one_entry = remove_expired-IsMap now s.server.cache sane.one_entry;
    },
    refl,
    refl,
  )

  Reaches-Follows : (s t : State F B) → IsSane s.server → Reaches s t → Follows s t
  Reaches-Follows s t sane at_start = (sane, refl, refl)
  Reaches-Follows s u sane (followed_by {t} before now) =
      let (there, auth, products) = Reaches-Follows s t sane before in
      let (here, auth', products') = Happens-Follows t u there now in
      (here, auth' ∙ auth, products' ∙ products)

  -- However requests, updates of the rules, failing ones included, and clean-ups interleave on a server
  -- that was started on the rules of some store with an empty cache, where another step may come between
  -- the computation of a response and its `Set`, and between a reload and the invalidation of the
  -- cache: the index of the engine is that of its rules, the cache holds each key once, and the server
  -- has the clients that it was started with. The first two are the conditions of the theorems on
  -- `Evaluate` and on the cache.
  pub Reaches-IsSane :
      (store : RuleStore F) (ttl : ℤ) (s t : State F B)
      → s.server.engine ≡ (load store new_rule_engine).0
      → s.server.cache ≡ new_memory_cache ttl
      → Reaches s t
      → IsIndexed t.server.engine
        × IsMap t.server.cache.store
        × (t.server.auth_client ≡ s.server.auth_client)
        × (t.server.product_client ≡ s.server.product_client)
  unfolding new_memory_cache
  Reaches-IsSane store ttl s t engine cache reached =
      let start : IsSane s.server = record {
        indexed = rw engine (load-IsIndexed store new_rule_engine new_rule_engine-IsIndexed);
        one_entry = rw cache tt;
      } in
      let (sane, auth, products) = Reaches-Follows s t start reached in
      (sane.indexed, sane.one_entry, auth, products)
