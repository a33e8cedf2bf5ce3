-- ===== src/Service/Updates.antt =====
-- What an update of the rules does to the running service.
use ctse_mood_rule_service.Common.{ℕ, ◌≡◌, refl, ◌⊎◌, inl, inr, Option, none, some, [], Error, wrap}
use ctse_mood_rule_service.Engine.{RuleStore, RuleEngine, reload}
use ctse_mood_rule_service.Engine.Index.{Holds, reload-Updated}
use ctse_mood_rule_service.Cache.{CacheKey, MemoryCache, get}
use ctse_mood_rule_service.Cache.Invalidation.{invalidate_all}
use ctse_mood_rule_service.EventBus.{EventBus, handlers_of, publish}
use ctse_mood_rule_service.MoodHandler.{Payload}
use ctse_mood_rule_service.Service.{after_reload, on_rule_updated}

module _ {F B : Type 0} (bus : EventBus Payload) (cache : MemoryCache B) where
  -- `after_reload` at an answer of `reload` that is known to be no error, or an error.
  updates :
      (engine : RuleEngine F) (holds : RuleEngine F → Type 0) (key : CacheKey) (now : ℕ)
      (done : RuleEngine F × Option Error)
      → (((done.1 ≡ none) × holds done.0) ⊎ ((e : Error) × (done.1 ≡ some e) × (done.0 ≡ engine)))
      → let u = after_reload bus cache done in
        ((u.answer ≡ none)
          × holds u.engine
          × (get now key u.cache ≡ none)
          × (u.started ≡ handlers_of "cache_invalidate" bus))
        ⊎ ((e : Error) × (u.answer ≡ some (wrap "failed to reload rules" e))
            × (u.engine ≡ engine)
            × (u.cache ≡ cache)
            × (u.started ≡ []))
  unfolding after_reload publish
  updates engine holds key now (after, none) (inl (fine, good)) =
      inl (refl, good, (invalidate_all cache key now).0, refl)
  updates engine holds key now (after, some e) (inl (fine, good)) = absurd (cc)
  updates engine holds key now (after, none) (inr (e, failed, same)) = absurd (cc)
  updates engine holds key now (after, some e') (inr (e, failed, same)) =
      inr (e', refl, same, refl, refl)

  -- An update of the rules either goes through: the engine holds the rules and the version that the
  -- store answers, with their index, no answer that was cached before is found, whatever its key, and
  -- the handlers of cache invalidations are started; or it fails: the engine and the cache are as they
  -- were, the error is reported, and no handler of cache invalidations is started.
  pub on_rule_updated_lem :
      (store : RuleStore F) (engine : RuleEngine F) (key : CacheKey) (now : ℕ)
      → let u = on_rule_updated store bus engine cache in
        ((u.answer ≡ none)
          × Holds store u.engine
          × (get now key u.cache ≡ none)
          × (u.started ≡ handlers_of "cache_invalidate" bus))
        ⊎ ((e : Error) × (u.answer ≡ some (wrap "failed to reload rules" e))
            × (u.engine ≡ engine)
            × (u.cache ≡ cache)
            × (u.started ≡ []))
  unfolding on_rule_updated
  on_rule_updated_lem store engine key now =
      updates engine (Holds store) key now (reload store engine) (reload-Updated store engine)
