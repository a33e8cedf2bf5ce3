-- ===== src/Cache/Expiry.antt =====
-- What `Get` answers after `Set`, `Delete` and the clean-up, at any later time.
use ctse_mood_rule_service.Common.{
  ℕ, ◌+◌, ◌≤◌, String, ◌≡◌, refl, none, some, arith, ltb, ◌==◌, if◌then◌else◌, lookup,
  lookup-insert, lookup-delete, lookup-delete_where, IsMap, Error, wrap, ok, err,
}
use ctse_mood_rule_service.Cache.{
  CacheKey, key_string, Json, CacheEntry, MemoryCache, is_expired, fresh_value, get, store_entry,
  set, remove, remove_expired,
}

module _ {B : Type 0} (c : MemoryCache B) where
  get-store_entry :
      (key other : CacheKey) (bytes : B) (now later : ℕ)
      → get later other (store_entry now (key_string key) bytes c) ≡ (
          if key_string key == key_string other
          then (if ltb (now + c.ttl) later then none else some bytes)
          else get later other c)
  unfolding get store_entry
  get-store_entry key other bytes now later = ground (
    arith,
    lookup-insert (key_string key) (key_string other)
        (record { value = bytes; expiration = now + c.ttl }) c.store,
  )

  -- After a `Set` that could marshal its value, a `Get` of a key with the same string answers the
  -- stored bytes up to the end of their time to live, that moment included, and nothing after it;
  -- a `Get` of a key with another string answers what it did before.
  pub get-set :
      {V : Type 0} (json : Json V B) (key other : CacheKey) (value : V) (bytes : B) (now later : ℕ)
      → json.marshal value ≡ ok bytes
      → (set json now key value c).1 ≡ none
        × (get later other (set json now key value c).0 ≡ (
            if key_string key == key_string other
            then (if ltb (now + c.ttl) later then none else some bytes)
            else get later other c))
  unfolding set
  get-set json key other value bytes now later m =
      rw (m, set) (refl, get-store_entry key other bytes now later)

  -- A `Set` whose value cannot be marshalled reports the wrapped error and changes nothing.
  pub set_fails :
      {V : Type 0} (json : Json V B) (key : CacheKey) (value : V) (now : ℕ) (e : Error)
      → json.marshal value ≡ err e
      → set json now key value c ≡ (c, some (wrap "failed to marshal value" e))
  unfolding set
  set_fails json key value now e m = rw (m, set)

  -- After a `Delete` the keys with that string miss, and every other key is answered as before.
  pub get-remove :
      (key other : CacheKey) (later : ℕ)
      → get later other (remove key c)
        ≡ (if key_string key == key_string other then none else get later other c)
  unfolding get remove
  get-remove key other later =
      ground (arith, lookup-delete (key_string key) (key_string other) c.store)

  pub fresh-remove_expired :
      (k : String) (now later : ℕ)
      → IsMap c.store
      → now ≤ later
      → fresh_value later (lookup k (remove_expired now c).store)
        ≡ fresh_value later (lookup k c.store)
  unfolding fresh_value remove_expired
  fresh-remove_expired k now later h le =
      ground (arith, lookup-delete_where (λ _ entry. is_expired now entry) k c.store h)

  -- In a store that holds each key once, the clean-up at one time changes no answer at that time or
  -- later.
  pub get-remove_expired :
      (key : CacheKey) (now later : ℕ)
      → IsMap c.store
      → now ≤ later
      → get later key (remove_expired now c) ≡ get later key c
  unfolding get
  get-remove_expired key now later h le = fresh-remove_expired (key_string key) now later h le

  -- In a store that holds each key once, the clean-up leaves no entry that has expired by its time.
  pub remove_expired_leaves :
      (k : String) (now : ℕ) (entry : CacheEntry B)
      → IsMap c.store
      → lookup k (remove_expired now c).store ≡ some entry
      → now ≤ entry.expiration
  unfolding remove_expired
  remove_expired_leaves k now entry h found =
      ground (arith, lookup-delete_where (λ _ e. is_expired now e) k c.store h)
