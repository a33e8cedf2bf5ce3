-- ===== src/Cache/Invalidation.antt =====
-- `InvalidateByPattern`: the pattern "*" empties the cache, any other is a literal prefix.
use Prim.Native.String.{◌++◌, len}
use text.Mathlib.TextEquality.{starts_with_iff}
use text.Mathlib.TextBridge.{IsPrefix}
use text.Mathlib.TextLemmas.{nil-append}
use text.Mathlib.TextPositions.{len-append}
use ctse_mood_rule_service.Common.{
  ℕ, ◌≤◌, String, true, ◌≡◌, ◌≢◌, refl, ◌↔◌, none, arith, ◌==◌, eq_iff, if◌then◌else◌, Bool-cases,
  inl, inr, lookup, lookup-delete_where, IsMap, ◌⊎◌,
}
use ctse_mood_rule_service.Cache.{
  CacheKey, key_string, cache_key_prefix, MemoryCache, get, matches_pattern, invalidate_by_pattern,
  size,
}

module _ {B : Type 0} (c : MemoryCache B) where
  -- By the test that the code makes.
  get-matching :
      (pattern : String) (key : CacheKey) (now : ℕ)
      → IsMap c.store
      → pattern ≢ "*"
      → get now key (invalidate_by_pattern pattern c) ≡ (
          if matches_pattern (key_string key) (cache_key_prefix ++ pattern)
          then none
          else get now key c)
  unfolding get invalidate_by_pattern
  get-matching pattern key now h p = ground (
    arith,
    eq_iff pattern "*",
    lookup-delete_where (λ k _. matches_pattern k (cache_key_prefix ++ pattern)) (key_string key)
        c.store h,
  )

  -- "*" empties the cache: every key misses at every time, and the size is 0.
  pub invalidate_all :
      (key : CacheKey) (now : ℕ)
      → (get now key (invalidate_by_pattern "*" c) ≡ none)
        × (size (invalidate_by_pattern "*" c) ≡ 0)
  unfolding get invalidate_by_pattern size lookup
  invalidate_all key now = (refl, refl)

matches_pattern-IsPrefix :
    (key pattern : String) → matches_pattern key pattern ≡ true → IsPrefix pattern key
unfolding matches_pattern
matches_pattern-IsPrefix key pattern h = elim (Bool-cases (pattern == "")) [
  | inl e ↦ rw ((eq_iff pattern "").0 e) (key, nil-append key)
  | inr e ↦ (starts_with_iff key pattern).0 (ground arith)
]

len-le_of_prefix : (s t : String) → IsPrefix s t → len s ≤ len t
len-le_of_prefix s t (u, e) = rw (← e) (omega (arith, len-append s u))

IsPrefix-matches_pattern :
    (key pattern : String) → IsPrefix pattern key → matches_pattern key pattern ≡ true
unfolding matches_pattern
IsPrefix-matches_pattern key pattern h = elim (Bool-cases (pattern == "")) [
  | inl e ↦ rw e
  | inr e ↦ ground (arith, (starts_with_iff key pattern).1 h, len-le_of_prefix pattern key h)
]

-- `matchesPattern` holds exactly if the key is the pattern followed by some text.
pub matches_pattern_iff :
    (key pattern : String) → (matches_pattern key pattern ≡ true) ↔ IsPrefix pattern key
matches_pattern_iff key pattern =
    (matches_pattern-IsPrefix key pattern, IsPrefix-matches_pattern key pattern)

module _ {B : Type 0} (c : MemoryCache B) where
  -- In a store that holds each key once, after `InvalidateByPattern` of anything but "*", a key whose
  -- string begins with the prefix of all keys followed by the pattern, read literally, is missed; any
  -- other is answered as before.
  pub get-invalidate_by_pattern :
      (pattern : String) (key : CacheKey) (now : ℕ)
      → IsMap c.store
      → pattern ≢ "*"
      → (IsPrefix (cache_key_prefix ++ pattern) (key_string key)
          × (get now key (invalidate_by_pattern pattern c) ≡ none))
        ⊎ ((¬ IsPrefix (cache_key_prefix ++ pattern) (key_string key))
            × (get now key (invalidate_by_pattern pattern c) ≡ get now key c))
  get-invalidate_by_pattern pattern key now h p =
      let prefix = cache_key_prefix ++ pattern in
      elim (Bool-cases (matches_pattern (key_string key) prefix)) [
        | inl e ↦ inl (
          matches_pattern-IsPrefix (key_string key) prefix e,
          rw e at (get-matching c pattern key now h p),
        )
        | inr e ↦ inr (
          λ begins.
              let test = IsPrefix-matches_pattern (key_string key) prefix begins in absurd (cc),
          rw e at (get-matching c pattern key now h p),
        )
      ]
