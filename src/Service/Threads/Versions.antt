-- ===== src/Service/Threads/Versions.antt =====
-- The version in the cache key of a request and the version of the engine, under every interleaving.
use ctse_mood_rule_service.Common.{ℕ, false, ◌≡◌, arith}
use ctse_mood_rule_service.Common.Int.{gtb_ℤ, gtb_ℤ_trans}
use ctse_mood_rule_service.Float.{Float64}
use ctse_mood_rule_service.Engine.{RuleEngine, RuleStore}
use ctse_mood_rule_service.Cache.{CacheKey}
use ctse_mood_rule_service.Server.{Server}
use ctse_mood_rule_service.Server.Recommend.{GetProductsByFilters}
use ctse_mood_rule_service.Server.Recommend.Stepwise.{
  arrived, fetched, keyed, missed, evaluated, storing, replied,
}
use ctse_mood_rule_service.Server.Recommend.Stepwise.Keys.{KeyHas, advance-KeyHas}
use ctse_mood_rule_service.Service.Threads.{
  Thread, idle, recommends, updates, published, System, advance_thread, Happens, arrives,
  is_published, moves, changes, ticks, Reaches, at_start, followed_by,
}
use ctse_mood_rule_service.Service.Threads.Loading.{put-all, and_then}

-- The engine is no older than the version of the key.
abbrev pub IsFresh : {F : Type 0} → CacheKey → RuleEngine F → Type 0
IsFresh key e = gtb_ℤ key.rule_version e.version ≡ false

own_version :
    {F : Type 0} (key : CacheKey) (e : RuleEngine F) → key.rule_version ≡ e.version → IsFresh key e
own_version key e same = rw same (ground arith)

module _ {F B : Type 0} ⦃fl : Float64 F⦄ where
  -- No step on the way lowers the version of the engine.
  unfoldable pub NeverFalls : (s t : System F B) → Reaches s t → Type 0
  NeverFalls s t at_start = Unit {0}
  NeverFalls s u (followed_by {t} before now) =
      NeverFalls s t before × (gtb_ℤ t.server.engine.version u.server.engine.version ≡ false)

  abbrev pub ThreadFresh : RuleEngine F → Thread F B → Type 0
  ThreadFresh e idle = Unit {0}
  ThreadFresh e (recommends env req pc) = KeyHas (λ key. IsFresh key e) pc
  ThreadFresh e (updates pc) = Unit {0}

  ThreadFresh-later :
      (e e' : RuleEngine F) (thread : Thread F B)
      → gtb_ℤ e.version e'.version ≡ false
      → ThreadFresh e thread
      → ThreadFresh e' thread
  ThreadFresh-later e e' idle rising h = tt
  ThreadFresh-later e e' (updates pc) rising h = tt
  ThreadFresh-later e e' (recommends env req arrived) rising h = tt
  ThreadFresh-later e e' (recommends env req (fetched mood)) rising h = tt
  ThreadFresh-later e e' (recommends env req (keyed mood key)) rising h =
      gtb_ℤ_trans key.rule_version e.version e'.version h rising
  ThreadFresh-later e e' (recommends env req (missed mood key)) rising h =
      gtb_ℤ_trans key.rule_version e.version e'.version h rising
  ThreadFresh-later e e' (recommends env req (evaluated key rules stats)) rising h = tt
  ThreadFresh-later e e' (recommends env req (storing key r)) rising h = tt
  ThreadFresh-later e e' (recommends env req (replied reply)) rising h = tt

  advance_thread-ThreadFresh :
      (store : RuleStore F) (thread : Thread F B) (s : Server F B (GetProductsByFilters F))
      → ThreadFresh s.engine thread
      → ThreadFresh s.engine (advance_thread store thread s).0
  unfolding advance_thread
  advance_thread-ThreadFresh store idle s h = tt
  advance_thread-ThreadFresh store (recommends env req pc) s h =
      advance-KeyHas (λ key. IsFresh key s.engine) env req pc s
        (λ key same. own_version key s.engine same) h
  advance_thread-ThreadFresh store (updates pc) s h = tt

  -- With the engine as it is before the step.
  Happens-ThreadFresh :
      (s t : System F B)
      → Happens s t
      → ((i : ℕ) → ThreadFresh s.server.engine (s.threads i))
      → (i : ℕ) → ThreadFresh s.server.engine (t.threads i)
  Happens-ThreadFresh s t (arrives j env req h) fresh i =
      put-all (ThreadFresh s.server.engine) j i (recommends env req arrived) s.threads tt (fresh i)
  Happens-ThreadFresh s t (is_published j h) fresh i =
      put-all (ThreadFresh s.server.engine) j i (updates published) s.threads tt (fresh i)
  Happens-ThreadFresh s t (moves j) fresh i =
      put-all (ThreadFresh s.server.engine) j i (advance_thread s.database (s.threads j) s.server).0
        s.threads (advance_thread-ThreadFresh s.database (s.threads j) s.server (fresh j)) (fresh i)
  Happens-ThreadFresh s t (changes store) fresh i = fresh i
  Happens-ThreadFresh s t (ticks now) fresh i = fresh i

  pub Reaches-ThreadFresh :
      (s t : System F B) (r : Reaches s t)
      → NeverFalls s t r
      → ((i : ℕ) → ThreadFresh s.server.engine (s.threads i))
      → (i : ℕ) → ThreadFresh t.server.engine (t.threads i)
  unfolding NeverFalls
  Reaches-ThreadFresh s t at_start rising fresh i = fresh i
  Reaches-ThreadFresh s u (followed_by {t} before now) (rising, up) fresh i =
      ThreadFresh-later t.server.engine u.server.engine (u.threads i) up
        (Happens-ThreadFresh t u now (Reaches-ThreadFresh s t before rising fresh) i)

  pub version_later :
      (s t : System F B) (r : Reaches s t)
      → NeverFalls s t r
      → gtb_ℤ s.server.engine.version t.server.engine.version ≡ false
  unfolding NeverFalls
  version_later s t at_start rising = ground arith
  version_later s u (followed_by {t} before now) (rising, up) =
      gtb_ℤ_trans s.server.engine.version t.server.engine.version u.server.engine.version
        (version_later s t before rising) up

  pub and_then-NeverFalls :
      (s m t : System F B) (first : Reaches s m) (second : Reaches m t)
      → NeverFalls s m first
      → NeverFalls m t second
      → NeverFalls s t (and_then s m t first second)
  unfolding NeverFalls and_then
  and_then-NeverFalls s m t first at_start rising later = rising
  and_then-NeverFalls s m u first (followed_by {t} before now) rising (later, up) =
      (and_then-NeverFalls s m t first before rising later, up)
