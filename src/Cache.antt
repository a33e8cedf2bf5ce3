-- ===== src/Cache.antt =====
-- internal/cache/memory_cache.go (and the interface in internal/cache/cache.go): an in-memory cache
-- with a time to live. Every method holds the mutex from its first access of the map to its last,
-- so a method is one step; the time that `time.Now()` answers is an argument, in nanoseconds.
-- `encoding/json` is the parameter `Json`: its two functions, over the bytes `B`.
pub mod Key
pub mod Entries
pub mod Expiry
pub mod Invalidation
pub mod History
pub mod Lifecycle
pub mod Versions
pub mod Values
use Prim.Native.Nat.{◌*◌}
use Prim.Native.String.{◌++◌, len, slice}
use ctse_mood_rule_service.Common.{
  ℕ, ◌+◌, String, Bool, true, false, Option, none, some, List, [], ◌∷◌, ltb, ◌==◌, if◌then◌else◌,
  Dict, lookup, insert, delete, delete_all, keys_where, length, Error, wrap, Result, ok, err,
}
use ctse_mood_rule_service.Common.Int.{ℤ, pos, negsuc}
use ctse_mood_rule_service.Common.Decimal.{format_int, format_nat}

abbrev pub cache_key_prefix : String
cache_key_prefix = "recommendation:"

pub record CacheKey : Type 0 where
  pub mood : String
  pub time_of_day : String
  pub weather : String
  pub segment : String
  pub rule_version : ℤ

-- `CacheKey.String`
unfoldable pub key_string : CacheKey → String
unfolding format_int
key_string k =
    cache_key_prefix
    ++ (k.mood
        ++ (":"
            ++ (k.time_of_day
                ++ (":"
                    ++ (k.weather
                        ++ (":" ++ (k.segment ++ (":v" ++ format_int k.rule_version))))))))

-- `json.Marshal` and `json.Unmarshal` at the type `V`.
pub record Json (V B : Type 0) : Type 0 where
  pub marshal : V → Result B
  pub unmarshal : B → Result V

pub record CacheEntry (B : Type 0) : Type 0 where
  pub value : B
  pub expiration : ℕ

pub record MemoryCache (B : Type 0) : Type 0 where
  pub store : Dict (CacheEntry B)
  pub ttl : ℕ
  -- whether `stopCh` has been closed
  pub stop_ch_closed : Bool
  pub stopped : Bool

-- 10 * time.Minute
abbrev pub default_ttl : ℕ
default_ttl = 600 * 1_000_000_000

-- `if ttl <= 0 { ttl = 10 * time.Minute }`
pub positive_ttl : ℤ → ℕ
positive_ttl (pos n) = if ltb 0 n then n else default_ttl
positive_ttl (negsuc n) = default_ttl

-- `matchesPattern`
unfoldable pub matches_pattern : String → String → Bool
matches_pattern key pattern =
    if pattern == ""
    then true
    else if ltb (len key) (len pattern)
    then false
    else slice key 0 (len pattern) == pattern

module _ {B : Type 0} where
  unfoldable pub new_memory_cache : ℤ → MemoryCache B
  unfolding positive_ttl
  new_memory_cache ttl = record {
    store = [];
    ttl = positive_ttl ttl;
    stop_ch_closed = false;
    stopped = false;
  }

  -- `now.After(entry.expiration)`
  pub is_expired : ℕ → CacheEntry B → Bool
  is_expired now entry = ltb entry.expiration now

  pub fresh_value : ℕ → Option (CacheEntry B) → Option B
  fresh_value now none = none
  fresh_value now (some entry) = if is_expired now entry then none else some entry.value

  -- `Get`: the bytes, or none for `nil, nil`. It never fails.
  unfoldable pub get : ℕ → CacheKey → MemoryCache B → Option B
  unfolding fresh_value is_expired
  get now key c = fresh_value now (lookup (key_string key) c.store)

  pub store_entry : ℕ → String → B → MemoryCache B → MemoryCache B
  store_entry now key value c = record c {
    store = insert key (record { value = value; expiration = now + c.ttl }) c.store;
  }

  -- `Set`: the cache afterwards, and the error.
  unfoldable pub set :
      {V : Type 0} → Json V B → ℕ → CacheKey → V → MemoryCache B → MemoryCache B × Option Error
  unfolding store_entry
  set json now key value c = elim (json.marshal value) [
    | err e ↦ (c, some (wrap "failed to marshal value" e))
    | ok bytes ↦ (store_entry now (key_string key) bytes c, none)
  ]

  -- `Delete`
  unfoldable pub remove : CacheKey → MemoryCache B → MemoryCache B
  remove key c = record c { store = delete (key_string key) c.store }

  -- `InvalidateByPattern`: it never fails.
  unfoldable pub invalidate_by_pattern : String → MemoryCache B → MemoryCache B
  unfolding matches_pattern
  invalidate_by_pattern pattern c =
      if pattern == "*"
      then record c { store = [] }
      else let prefix = cache_key_prefix ++ pattern in
        record c {
          store = delete_all (keys_where (λ key _. matches_pattern key prefix) c.store) c.store;
        }

  -- `removeExpired`
  unfoldable pub remove_expired : ℕ → MemoryCache B → MemoryCache B
  unfolding is_expired
  remove_expired now c = record c {
    store = delete_all (keys_where (λ _ entry. is_expired now entry) c.store) c.store;
  }

  -- `Size`
  unfoldable pub size : MemoryCache B → ℕ
  size c = length c.store

  -- `Clear`
  unfoldable pub clear : MemoryCache B → MemoryCache B
  clear c = record c { store = [] }

  -- `GetStats`; the first argument is the print of a duration, `time.Duration.String`.
  unfoldable pub get_stats : (ℕ → String) → MemoryCache B → Dict String
  get_stats duration_string c =
      ("status", "connected")
      ∷ ("type", "in-memory")
      ∷ ("total_keys", format_nat (length c.store))
      ∷ ("ttl", duration_string c.ttl)
      ∷ []

  -- `close(c.stopCh)`: none is the panic on a closed channel.
  pub close_channel : MemoryCache B → Option (MemoryCache B)
  close_channel c = if c.stop_ch_closed then none else some (record c { stop_ch_closed = true })

  pub mark_stopped : Option (MemoryCache B) → Option (MemoryCache B)
  mark_stopped none = none
  mark_stopped (some c) = some (record c { stopped = true })

  -- `Close`
  unfoldable pub close : MemoryCache B → Option (MemoryCache B)
  unfolding close_channel mark_stopped
  close c = if c.stopped then some c else mark_stopped (close_channel c)

  -- `Ping`: always nil.
  unfoldable pub ping : MemoryCache B → Option Error
  ping c = none
