-- ===== src/Tests/Caching.antt =====
-- The cache's theorems at sample keys and calls. The bytes of a text are the text.
use Prim.Native.String.{◌++◌}
use Prim.Native.String as S
use mathlib.Core.List.{Mem, mem-cons, not-mem-nil}
use mathlib.Core.Logic.Or
use ctse_mood_rule_service.Common.{
  ℕ, ◌≢◌, eq_iff, ◌⊎◌, ◌+◌, ◌≤◌, String, ◌≡◌, refl, none, some, List, [], ◌∷◌, ◌==◌, ltb,
  if◌then◌else◌, IsMap, lookup, insert, delete_all, keys_where, ok, arith,
}
use ctse_mood_rule_service.Common.Int.{pos}
use ctse_mood_rule_service.Common.Decimal.{format_int}
use ctse_mood_rule_service.Cache.{
  cache_key_prefix, CacheKey, key_string, Json, MemoryCache, new_memory_cache, positive_ttl,
  matches_pattern, get, set, invalidate_by_pattern, remove_expired,
}
use ctse_mood_rule_service.Cache.Key.{NoColon, IsPlain, key_string-injective}
use text.Mathlib.TextBridge.{IsPrefix}
use ctse_mood_rule_service.Cache.Invalidation.{get-invalidate_by_pattern}
use ctse_mood_rule_service.Cache.Expiry.{get-set}
use ctse_mood_rule_service.Cache.History.{Operation, set_at, clean_up, apply, run}
use ctse_mood_rule_service.Cache.Versions.{get_after_plain_run}
use ctse_mood_rule_service.Cache.Lifecycle.{tick, stop, cleanup_expired, get-cleanup_expired}

abbrev text_json : Json String String
text_json = record { marshal = ok; unmarshal = ok }

abbrev happy_key : CacheKey
happy_key = record {
  mood = "happy";
  time_of_day = "morning";
  weather = "sunny";
  segment = "u1";
  rule_version = pos 3;
}

abbrev sad_key : CacheKey
sad_key = record happy_key { mood = "sad" }

-- one entry, which expires at 15
abbrev sample : MemoryCache String
sample = (set text_json 5 happy_key "tea" (new_memory_cache (pos 10))).0

caching : Unit {0}
unfolding key_string format_int new_memory_cache get set insert lookup run invalidate_by_pattern
    remove_expired cleanup_expired matches_pattern apply delete_all keys_where
caching = tt

sample-IsMap : IsMap sample.store
unfolding caching
sample-IsMap = (refl, tt)

get-set_example :
    (set text_json 20 sad_key "cake" sample).1 ≡ none
    × (get 25 happy_key (set text_json 20 sad_key "cake" sample).0 ≡ (
        if key_string sad_key == key_string happy_key
        then (if ltb (20 + sample.ttl) 25 then none else some "cake")
        else get 25 happy_key sample))
get-set_example = get-set sample text_json sad_key happy_key "cake" "cake" 20 25 refl

plain : IsPlain happy_key
plain = record {
  mood = (omega arith, (omega arith, (omega arith, (omega arith, (omega arith, tt)))));
  time_of_day = (
    omega arith,
    (omega arith, (omega arith, (omega arith, (omega arith, (omega arith, (omega arith, tt)))))),
  );
  weather = (omega arith, (omega arith, (omega arith, (omega arith, (omega arith, tt)))));
  segment = (omega arith, (omega arith, tt));
}

abbrev calls : List (Operation String)
calls = set_at 5 happy_key "tea" ∷ set_at 6 sad_key "cake" ∷ clean_up 8 ∷ []

found : get 12 happy_key (run text_json calls (new_memory_cache (pos 10))) ≡ some "tea"
unfolding caching
found = refl

kept :
    lookup (key_string happy_key) (remove_expired 12 sample).store
    ≡ some (record { value = "tea"; expiration = 15 })
unfolding caching
kept = refl

NoColon-prop : (text : String) → IsProp (NoColon text)
NoColon-prop S.[] = hlevel
NoColon-prop (S.◌∷◌ c rest) = let later = NoColon-prop rest in hlevel (later)

IsPlain-prop : (k : CacheKey) → IsProp (IsPlain k)
IsPlain-prop k =
    let mood = NoColon-prop k.mood in
    let time = NoColon-prop k.time_of_day in
    let weather = NoColon-prop k.weather in
    let segment = NoColon-prop k.segment in hlevel (mood, time, weather, segment)

sad-IsPlain : IsPlain sad_key
sad-IsPlain = record {
  mood = (omega arith, (omega arith, (omega arith, tt)));
  time_of_day = plain.time_of_day;
  weather = plain.weather;
  segment = plain.segment;
}

calls-IsPlain : (at : ℕ) (k : CacheKey) (value : String) → Mem (set_at at k value) calls → IsPlain k
calls-IsPlain at k value m =
    Or.elim (IsPlain-prop k) (mem-cons.0 m)
      (λ first. let same : k ≡ happy_key = cc in rw same plain)
      (λ m.
        Or.elim (IsPlain-prop k) (mem-cons.0 m)
          (λ second. let same : k ≡ sad_key = cc in rw same sad-IsPlain)
          (λ m.
            Or.elim (IsPlain-prop k) (mem-cons.0 m) (λ third. absurd (cc))
              (λ m. absurd (not-mem-nil m))))

get_after_plain_run_example :
    (at : ℕ) × (value : String) × Mem (set_at at happy_key value) calls
    × (text_json.marshal value ≡ ok "tea")
    × (12 ≤ at + positive_ttl (pos 10))
get_after_plain_run_example =
    get_after_plain_run text_json (pos 10) calls 12 happy_key "tea" plain calls-IsPlain found

key_string-injective_example : happy_key ≡ happy_key
key_string-injective_example = key_string-injective happy_key happy_key plain plain refl

get-cleanup_expired_example :
    get 20 happy_key (cleanup_expired (tick 10 ∷ tick 16 ∷ stop ∷ []) sample)
    ≡ get 20 happy_key sample
get-cleanup_expired_example =
    get-cleanup_expired (tick 10 ∷ tick 16 ∷ stop ∷ []) sample happy_key 20 sample-IsMap
      (omega arith, (omega arith, tt))

no_star : ◌≢◌ {A = String} "happy" "*"
no_star = λ e. let same = (eq_iff "happy" "*").1 e in absurd (cc)

get-invalidate_by_pattern_example :
    (IsPrefix (cache_key_prefix ++ "happy") (key_string happy_key)
      × (get 7 happy_key (invalidate_by_pattern "happy" sample) ≡ none))
    ⊎ ((¬ IsPrefix (cache_key_prefix ++ "happy") (key_string happy_key))
        × (get 7 happy_key (invalidate_by_pattern "happy" sample) ≡ get 7 happy_key sample))
get-invalidate_by_pattern_example =
    get-invalidate_by_pattern sample "happy" happy_key 7 sample-IsMap no_star
