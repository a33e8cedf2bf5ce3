-- ===== src/Cache/Versions.antt =====
-- A key holds the version of the rules: what `Get` answers was set under this version.
use mathlib.Core.List.{Mem}
use ctse_mood_rule_service.Common.{ℕ, ◌+◌, ◌≤◌, ◌≡◌, some, List, ok}
use ctse_mood_rule_service.Common.Int.{ℤ}
use ctse_mood_rule_service.Cache.{CacheKey, Json, positive_ttl, new_memory_cache, get}
use ctse_mood_rule_service.Cache.Key.{IsPlain, key_string-injective}
use ctse_mood_rule_service.Cache.History.{Operation, set_at, run, get_after_run}

module _ {V B : Type 0} (json : Json V B) where
  -- Whatever calls and clean-ups a new cache has seen, if the texts of the keys hold no colon: if a `Get`
  -- answers bytes, then some `Set` among them at this very key, with the same version of the rules,
  -- marshalled its value to these bytes, and its time to live has not passed.
  pub get_after_plain_run :
      (ttl : ℤ) (ops : List (Operation V)) (now : ℕ) (key : CacheKey) (bytes : B)
      → IsPlain key
      → ((at : ℕ) (k : CacheKey) (value : V) → Mem (set_at at k value) ops → IsPlain k)
      → get now key (run json ops (new_memory_cache ttl)) ≡ some bytes
      → (at : ℕ) × (value : V) × Mem (set_at at key value) ops
        × (json.marshal value ≡ ok bytes)
        × (now ≤ at + positive_ttl ttl)
  get_after_plain_run ttl ops now key bytes plain all_plain found =
      let (at, k, value, m, same, marshalled, fresh) =
        get_after_run json ttl ops now key bytes found in
      let this : k ≡ key = key_string-injective k key (all_plain at k value m) plain same in
      (at, value, rw (← this) m, marshalled, fresh)
