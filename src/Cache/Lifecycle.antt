-- ===== src/Cache/Lifecycle.antt =====
-- The background goroutine `cleanupExpired`, and `Close`.
use ctse_mood_rule_service.Common.{
  ℕ, ◌≤◌, true, false, ◌≡◌, refl, ◌∙◌, zero, suc, Option, none, some, List, [], ◌∷◌, arith, IsMap,
}
use ctse_mood_rule_service.Common.Int.{ℤ}
use ctse_mood_rule_service.Cache.{
  CacheKey, MemoryCache, new_memory_cache, get, remove_expired, close, close_channel, mark_stopped,
  set, Json, remove, invalidate_by_pattern, clear,
}
use ctse_mood_rule_service.Cache.Entries.{remove_expired-IsMap}
use ctse_mood_rule_service.Cache.Expiry.{get-remove_expired}
use ctse_mood_rule_service.Cache.History.{Operation, set_at, invalidate, apply, run}

-- What the `select` of the goroutine receives: a tick at a time, or the closed channel.
pub data Signal : Type 0 where
  tick : ℕ → Signal
  stop : Signal

-- No tick comes after the given time.
abbrev pub TicksBefore : ℕ → List Signal → Type 0
TicksBefore later [] = Unit
TicksBefore later (tick now ∷ signals) = (now ≤ later) × TicksBefore later signals
TicksBefore later (stop ∷ signals) = TicksBefore later signals

module _ {B : Type 0} where
  -- The loop of `cleanupExpired` over what it receives; it returns at the first stop.
  unfoldable pub cleanup_expired : List Signal → MemoryCache B → MemoryCache B
  cleanup_expired [] c = c
  cleanup_expired (tick now ∷ signals) c = cleanup_expired signals (remove_expired now c)
  cleanup_expired (stop ∷ signals) c = c

  -- However many ticks the clean-up goroutine has handled, as long as none is later than a `Get`
  -- and the store holds each key once, the `Get` answers as if the goroutine had not run.
  pub get-cleanup_expired :
      (signals : List Signal) (c : MemoryCache B) (key : CacheKey) (later : ℕ)
      → IsMap c.store
      → TicksBefore later signals
      → get later key (cleanup_expired signals c) ≡ get later key c
  unfolding cleanup_expired
  get-cleanup_expired [] c key later h t = refl
  get-cleanup_expired (tick now ∷ signals) c key later h t =
      get-cleanup_expired signals (remove_expired now c) key later (remove_expired-IsMap now c h)
        t.1
      ∙ get-remove_expired c key now later h t.0
  get-cleanup_expired (stop ∷ signals) c key later h t = refl

  -- `Close` called again and again: none is a panic.
  unfoldable pub close_times : ℕ → MemoryCache B → Option (MemoryCache B)
  close_times zero c = some c
  close_times (suc n) c = elim (close c) [ none ↦ none | some c' ↦ close_times n c' ]

  abbrev closed : MemoryCache B → MemoryCache B
  closed c = record c { stop_ch_closed = true; stopped = true }

  close_closed : (n : ℕ) (c : MemoryCache B) → close_times n (closed c) ≡ some (closed c)
  unfolding close_times close
  close_closed zero c = refl
  close_closed (suc n) c = close_closed n c

  close_open :
      (n : ℕ) (c : MemoryCache B)
      → c.stopped ≡ false
      → c.stop_ch_closed ≡ false
      → close_times (suc n) c ≡ some (closed c)
  unfolding close_times close
  close_open n c h k = rw (h, k, close, close_channel, mark_stopped) (close_closed n c)

module _ {V B : Type 0} (json : Json V B) where
  apply_flags :
      (o : Operation V) (c : MemoryCache B)
      → ((apply json o c).stopped ≡ c.stopped)
        × ((apply json o c).stop_ch_closed ≡ c.stop_ch_closed)
  unfolding apply set remove invalidate_by_pattern remove_expired clear
  apply_flags (set_at now key value) c = ground arith
  apply_flags (invalidate pattern) c = ground arith
  apply_flags _ c = (refl, refl)

  run_flags :
      (ops : List (Operation V)) (c : MemoryCache B)
      → ((run json ops c).stopped ≡ c.stopped)
        × ((run json ops c).stop_ch_closed ≡ c.stop_ch_closed)
  unfolding run
  run_flags [] c = (refl, refl)
  run_flags (o ∷ ops) c = grind (arith, run_flags ops (apply json o c), apply_flags o c)

  -- After any calls and clean-ups of a new cache, `Close` may be called once or more often: it
  -- never panics, closes the channel, and leaves the entries and the time to live as they are.
  pub close_after_run :
      (ttl : ℤ) (ops : List (Operation V)) (n : ℕ)
      → let c = run json ops (new_memory_cache ttl) in
        close_times (suc n) c ≡ some (record c { stop_ch_closed = true; stopped = true })
  unfolding new_memory_cache
  close_after_run ttl ops n =
      let flags = run_flags ops (new_memory_cache ttl) in
      close_open n (run json ops (new_memory_cache ttl)) flags.0 flags.1
