-- ===== src/Cache/History.antt =====
-- The cache under any sequence of calls and clean-ups: each holds the mutex from its first access
-- of the map to its last, so every interleaving of goroutines is such a sequence.
use Prim.Native.String.{◌++◌}
use mathlib.Core.List.{Mem, mem-cons_self, mem-cons_of_mem}
use ctse_mood_rule_service.Common.{
  ℕ, ◌+◌, ◌≤◌, String, ◌≡◌, refl, Option, none, some, List, [], ◌∷◌, arith, ◌==◌, eq_iff,
  Bool-cases, inl, inr, lookup, lookup-insert, lookup-delete, lookup-delete_where, IsMap,
  insert-IsMap, delete-IsMap, delete_all-IsMap, Dict, Result-cases, ok,
}
use ctse_mood_rule_service.Common.Int.{ℤ}
use ctse_mood_rule_service.Cache.{
  CacheKey, key_string, cache_key_prefix, Json, CacheEntry, MemoryCache, new_memory_cache,
  positive_ttl, is_expired, fresh_value, get, store_entry, set, remove, invalidate_by_pattern,
  remove_expired, clear, matches_pattern,
}

-- A call that changes the cache, with the time that it reads.
pub data Operation (V : Type 0) : Type 0 where
  set_at : ℕ → CacheKey → V → Operation V
  delete : CacheKey → Operation V
  invalidate : String → Operation V
  clean_up : ℕ → Operation V
  clear_all : Operation V

-- Bytes that are answered come from an entry that has not expired.
pub fresh_found :
    {B : Type 0} (now : ℕ) (o : Option (CacheEntry B)) (bytes : B)
    → fresh_value now o ≡ some bytes
    → (entry : CacheEntry B) × (o ≡ some entry) × (entry.value ≡ bytes) × (now ≤ entry.expiration)
unfolding fresh_value is_expired
fresh_found now none bytes h = absurd (cc)
fresh_found now (some entry) bytes h = (entry, refl, ground arith, ground arith)

module _ {V B : Type 0} (json : Json V B) where
  unfoldable pub apply : Operation V → MemoryCache B → MemoryCache B
  apply (set_at now key value) c = (set json now key value c).0
  apply (delete key) c = remove key c
  apply (invalidate pattern) c = invalidate_by_pattern pattern c
  apply (clean_up now) c = remove_expired now c
  apply clear_all c = clear c

  unfoldable pub run : List (Operation V) → MemoryCache B → MemoryCache B
  run [] c = c
  run (o ∷ os) c = run os (apply o c)

  -- Some `Set` of the list wrote the entry.
  pub record WrittenIn (ops : List (Operation V)) (ttl : ℕ) (k : String) (entry : CacheEntry B)
      : Type 0 where
    pub at : ℕ
    pub key : CacheKey
    pub value : V
    pub in_list : Mem (set_at at key value) ops
    pub same_key : key_string key ≡ k
    pub marshalled : json.marshal value ≡ ok entry.value
    pub expires : entry.expiration ≡ at + ttl

  record Explained (ops : List (Operation V)) (ttl : ℕ) (c : MemoryCache B) : Type 0 where
    same_ttl : c.ttl ≡ ttl
    is_map : IsMap c.store
    written :
        (k : String) (entry : CacheEntry B)
        → lookup k c.store ≡ some entry
        → WrittenIn ops ttl k entry

  module _ (ops : List (Operation V)) (ttl : ℕ) where
    store_entry-Explained :
        (now : ℕ) (key : CacheKey) (value : V) (bytes : B) (c : MemoryCache B)
        → Mem (set_at now key value) ops
        → json.marshal value ≡ ok bytes
        → Explained ops ttl c
        → Explained ops ttl (store_entry now (key_string key) bytes c)
    unfolding store_entry
    store_entry-Explained now key value bytes c m e h =
        let entry' : CacheEntry B = record { value = bytes; expiration = now + c.ttl } in
        record {
          same_ttl = h.same_ttl;
          is_map = insert-IsMap (key_string key) entry' c.store h.is_map;
          written = λ k entry found. elim (Bool-cases (key_string key == k)) [
            | inl same ↦ record {
              at = now;
              key = key;
              value = value;
              in_list = m;
              same_key = (eq_iff (key_string key) k).0 same;
              marshalled = ground (arith, e, lookup-insert (key_string key) k entry' c.store);
              expires = ground (arith, h.same_ttl, lookup-insert (key_string key) k entry' c.store);
            }
            | inr other ↦
                h.written k entry (ground (arith, lookup-insert (key_string key) k entry' c.store))
          ];
        }

    set-Explained :
        (now : ℕ) (key : CacheKey) (value : V) (c : MemoryCache B)
        → Mem (set_at now key value) ops
        → Explained ops ttl c
        → Explained ops ttl (set json now key value c).0
    unfolding set
    set-Explained now key value c m h = elim (Result-cases (json.marshal value)) [
      | inl (bytes, e) ↦ rw (e, set) (store_entry-Explained now key value bytes c m e h)
      | inr (x, e) ↦ rw (e, set) h
    ]

    -- What only drops entries keeps the rest explained.
    dropped-Explained :
        (store : Dict (CacheEntry B)) (c : MemoryCache B)
        → IsMap store
        → ((k : String) (entry : CacheEntry B)
            → lookup k store ≡ some entry
            → lookup k c.store ≡ some entry)
        → Explained ops ttl c
        → Explained ops ttl (record c { store = store })
    dropped-Explained store c is_map drops h = record {
      same_ttl = h.same_ttl;
      is_map = is_map;
      written = λ k entry found. h.written k entry (drops k entry found);
    }

    apply-Explained :
        (o : Operation V) (c : MemoryCache B)
        → Mem o ops
        → Explained ops ttl c
        → Explained ops ttl (apply o c)
    unfolding apply remove invalidate_by_pattern remove_expired clear lookup
    apply-Explained (set_at now key value) c m h = set-Explained now key value c m h
    apply-Explained (delete key) c m h =
        dropped-Explained _ c (delete-IsMap (key_string key) c.store h.is_map)
          (λ k entry found. ground (arith, lookup-delete (key_string key) k c.store)) h
    apply-Explained (invalidate pattern) c m h = elim (Bool-cases (pattern == "*")) [
      | inl e ↦ rw (e, invalidate_by_pattern) (dropped-Explained [] c tt (λ k entry found. cc) h)
      | inr e ↦
          let test =
            λ (k : String) (_ : CacheEntry B). matches_pattern k (cache_key_prefix ++ pattern) in
          rw (e, invalidate_by_pattern)
            (dropped-Explained _ c (delete_all-IsMap _ c.store h.is_map)
              (λ k entry found. ground (arith, lookup-delete_where test k c.store h.is_map)) h)
    ]
    apply-Explained (clean_up now) c m h =
        let test = λ (_ : String) (entry : CacheEntry B). is_expired now entry in
        dropped-Explained _ c (delete_all-IsMap _ c.store h.is_map)
          (λ k entry found. ground (arith, lookup-delete_where test k c.store h.is_map)) h
    apply-Explained clear_all c m h = dropped-Explained [] c tt (λ k entry found. cc) h

    run-Explained :
        (os : List (Operation V)) (c : MemoryCache B)
        → ((o : Operation V) → Mem o os → Mem o ops)
        → Explained ops ttl c
        → Explained ops ttl (run os c)
    unfolding run
    run-Explained [] c sub h = h
    run-Explained (o ∷ os) c sub h =
        run-Explained os (apply o c) (λ a m. sub a (mem-cons_of_mem o m))
          (apply-Explained o c (sub o mem-cons_self) h)

  -- Whatever calls and clean-ups a new cache has seen: if a `Get` answers bytes, then some `Set`
  -- among them, at a key with the same string, marshalled its value to these bytes, and its time
  -- to live has not passed.
  pub get_after_run :
      (ttl : ℤ) (ops : List (Operation V)) (now : ℕ) (key : CacheKey) (bytes : B)
      → get now key (run ops (new_memory_cache ttl)) ≡ some bytes
      → (at : ℕ) × (k : CacheKey) × (value : V) × Mem (set_at at k value) ops
        × (key_string k ≡ key_string key)
        × (json.marshal value ≡ ok bytes)
        × (now ≤ at + positive_ttl ttl)
  unfolding get new_memory_cache lookup
  get_after_run ttl ops now key bytes found =
      let c = run ops (new_memory_cache ttl) in
      let h : Explained ops (positive_ttl ttl) c =
        run-Explained ops (positive_ttl ttl) ops (new_memory_cache ttl) (λ o m. m)
          (record { same_ttl = refl; is_map = tt; written = λ k entry m. cc }) in
      let (entry, stored, value, fresh) =
        fresh_found now (lookup (key_string key) c.store) bytes found in
      let w = h.written (key_string key) entry stored in
      (
        w.at,
        w.key,
        w.value,
        w.in_list,
        w.same_key,
        ground (arith, w.marshalled, value),
        omega (arith, w.expires, fresh),
      )
