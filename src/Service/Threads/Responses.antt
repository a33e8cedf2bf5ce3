-- ===== src/Service/Threads/Responses.antt =====
-- Where the responses of the running service come from, under every interleaving of the threads.
use ctse_mood_rule_service.Common.{ℕ, String, ◌≡◌, refl, sym, ap, ◌∙◌, lookup}
use ctse_mood_rule_service.Common.Int.{ℤ}
use ctse_mood_rule_service.Float.{Float64}
use ctse_mood_rule_service.Engine.{RuleEngine, RuleStore}
use ctse_mood_rule_service.Engine.Index.{IsIndexed}
use ctse_mood_rule_service.Cache.{CacheKey, new_memory_cache}
use ctse_mood_rule_service.Cache.Values.{remove_expired-AllGood, invalidate_all-AllGood}
use ctse_mood_rule_service.Server.{UserContext, Client, GetUserMood, Server}
use ctse_mood_rule_service.Server.Recommend.{GetProductsByFilters, Surroundings}
use ctse_mood_rule_service.Server.Recommend.Stepwise.{arrived, missed}
use ctse_mood_rule_service.Server.Recommend.Stepwise.Provenance.{
  Stored, CacheSound, PcSound, advance-PcSound, advance-CacheSound,
}
use ctse_mood_rule_service.Service.Reachable.{IsSane}
use ctse_mood_rule_service.Service.Threads.{
  UpdatePc, published, queried, counted, installed, updated, invalidate, install, advance_update,
  Thread, idle, recommends, updates, System, advance_thread, Happens, arrives, is_published, moves,
  changes, ticks, Reaches, at_start, followed_by,
}
use ctse_mood_rule_service.Service.Threads.Sanity.{Reaches-Keeps}
use ctse_mood_rule_service.Service.Threads.Loading.{
  put-all, and_then, FromDatabase, FromDatabase-later, engine-FromDatabase,
}

-- Nothing is asked of a key.
abbrev pub AnyKey : CacheKey → Type 0
AnyKey key = Unit {0}

module _ {F : Type 0} (B : Type 0) ⦃fl : Float64 F⦄ (Seen : CacheKey → RuleEngine F → Type 0)
    (auth : Client GetUserMood) (catalog : Client (GetProductsByFilters F)) where
  abbrev pub ThreadSound : (CacheKey → Type 0) → Thread F B → Type 0
  ThreadSound KeyGood idle = Unit {0}
  ThreadSound KeyGood (recommends env req pc) = PcSound B Seen auth catalog KeyGood env req pc
  ThreadSound KeyGood (updates pc) = Unit {0}

  -- The cache holds responses that were computed, and so do the requests.
  abbrev pub Sound : System F B → Type 0
  Sound s =
      CacheSound B Seen auth catalog s.server.cache × ((i : ℕ) → ThreadSound AnyKey (s.threads i))

  update-CacheSound :
      (store : RuleStore F) (pc : UpdatePc F) (s : Server F B (GetProductsByFilters F))
      → CacheSound B Seen auth catalog s.cache
      → CacheSound B Seen auth catalog (advance_update store pc s).1.cache
  unfolding advance_update install invalidate
  update-CacheSound store published s h = h
  update-CacheSound store (queried rules) s h = h
  update-CacheSound store (counted rules version) s h = h
  update-CacheSound store installed s h =
      invalidate_all-AllGood (Stored B Seen auth catalog) s.cache
  update-CacheSound store (updated answer) s h = h

  pub thread-Sound :
      (KeyGood : CacheKey → Type 0) (store : RuleStore F) (thread : Thread F B)
      (s : Server F B (GetProductsByFilters F))
      → ((env : Surroundings F B) (req : UserContext) (key : CacheKey) (mood : String)
          → thread ≡ recommends env req (missed mood key)
          → Seen key s.engine)
      → ((key : CacheKey) → key.rule_version ≡ s.engine.version → KeyGood key)
      → auth ≡ s.auth_client
      → catalog ≡ s.product_client
      → CacheSound B Seen auth catalog s.cache
      → ThreadSound KeyGood thread
      → CacheSound B Seen auth catalog (advance_thread store thread s).1.cache
        × ThreadSound KeyGood (advance_thread store thread s).0
  unfolding advance_thread
  thread-Sound KeyGood store idle s seen now asks same sound h = (sound, tt)
  thread-Sound KeyGood store (recommends env req pc) s seen now asks same sound h = (
    advance-CacheSound B Seen auth catalog KeyGood env req pc s sound h,
    advance-PcSound B Seen auth catalog KeyGood env req pc s
        (λ key mood e. seen env req key mood (ap (recommends env req) e)) now asks same sound h,
  )
  thread-Sound KeyGood store (updates pc) s seen now asks same sound h =
      (update-CacheSound store pc s sound, tt)

  -- The engine is seen for every request that is about to evaluate.
  abbrev pub SeenNow : System F B → Type 0
  SeenNow s =
      (i : ℕ) (env : Surroundings F B) (req : UserContext) (key : CacheKey) (mood : String)
      → s.threads i ≡ recommends env req (missed mood key)
      → Seen key s.server.engine

  pub Happens-Sound :
      (s t : System F B)
      → Happens s t
      → SeenNow s
      → auth ≡ s.server.auth_client
      → catalog ≡ s.server.product_client
      → IsSane s.server
      → Sound s
      → Sound t
  Happens-Sound s t (arrives j env req h) seen asks same sane (sound, threads) = (
    sound,
    λ i. put-all (ThreadSound AnyKey) j i (recommends env req arrived) s.threads tt (threads i),
  )
  Happens-Sound s t (is_published j h) seen asks same sane (sound, threads) =
      (sound, λ i. put-all (ThreadSound AnyKey) j i (updates published) s.threads tt (threads i))
  Happens-Sound s t (moves j) seen asks same sane (sound, threads) =
      let (sound', thread) =
        thread-Sound AnyKey s.database (s.threads j) s.server (seen j) (λ key e. tt) asks same sound
          (threads j) in
      (
        sound',
        λ i.
            put-all (ThreadSound AnyKey) j i (advance_thread s.database (s.threads j) s.server).0
              s.threads thread (threads i),
      )
  Happens-Sound s t (changes store) seen asks same sane h = h
  Happens-Sound s t (ticks now) seen asks same sane (sound, threads) = (
    remove_expired-AllGood (Stored B Seen auth catalog) now s.server.cache sane.one_entry sound,
    threads,
  )

  -- Up to `u`, if the engines on the way to `u` are seen.
  pub Reaches-Sound :
      (s t u : System F B)
      → ((v : System F B) → Reaches s v → Reaches v u → SeenNow v)
      → auth ≡ s.server.auth_client
      → catalog ≡ s.server.product_client
      → IsSane s.server
      → Sound s
      → Reaches s t
      → Reaches t u
      → Sound t
  Reaches-Sound s t u seen asks same sane sound at_start later = sound
  Reaches-Sound s t u seen asks same sane sound (followed_by {t = v} before now) later =
      let rest = and_then v t u (followed_by at_start now) later in
      let keeps = Reaches-Keeps s v before in
      Happens-Sound v t now (seen v before rest) (asks ∙ sym keeps.auth_client)
        (same ∙ sym keeps.product_client) (keeps.sane sane)
        (Reaches-Sound s v u seen asks same sane sound before rest)

module _ {F B : Type 0} ⦃fl : Float64 F⦄ where
  -- From a start with an empty cache up to `v`, with any account of the engines that are seen.
  pub start-Sound :
      (Seen : CacheKey → RuleEngine F → Type 0) (s v t : System F B) (ttl : ℤ)
      → IsIndexed s.server.engine
      → s.server.cache ≡ new_memory_cache ttl
      → ((j : ℕ) → s.threads j ≡ idle)
      → ((w : System F B)
          → Reaches s w
          → Reaches w t
          → SeenNow B Seen s.server.auth_client s.server.product_client w)
      → Reaches s v
      → Reaches v t
      → Sound B Seen s.server.auth_client s.server.product_client v
  unfolding new_memory_cache lookup
  start-Sound Seen s v t ttl indexed empty all_idle seen before later =
      Reaches-Sound B Seen s.server.auth_client s.server.product_client s v t seen refl refl
        (record { indexed = indexed; one_entry = rw empty tt })
        (
          λ k entry found. absurd (let none_there = rw empty at found in cc),
          λ j. rw (all_idle j) tt,
        )
        before later

  pub engine_seen :
      (s t v : System F B)
      → ((i : ℕ) → s.threads i ≡ idle)
      → Reaches s v
      → Reaches v t
      → FromDatabase s t v.server.engine
  engine_seen s t v all_idle before later =
      FromDatabase-later s v t v.server.engine later (engine-FromDatabase s v all_idle before)
