-- ===== src/Cache/Values.antt =====
-- What holds of all that is `Set` holds of all that is in the cache, and of all that `Get` answers.
use ctse_mood_rule_service.Common.{
  ℕ, ◌+◌, String, ◌≡◌, some, ok, inl, inr, arith, Bool-cases, Result-cases, IsMap, lookup,
  lookup-insert, lookup-delete_where, ◌==◌, eq_iff,
}
use ctse_mood_rule_service.Cache.{
  CacheKey, key_string, Json, CacheEntry, MemoryCache, get, store_entry, set, invalidate_by_pattern,
  is_expired, remove_expired,
}
use ctse_mood_rule_service.Cache.History.{fresh_found}

module _ {B : Type 0} (Good : String → B → Type 0) where
  -- Every value of the cache is good for its key.
  abbrev pub AllGood : MemoryCache B → Type 0
  AllGood c =
      (k : String) (entry : CacheEntry B) → lookup k c.store ≡ some entry → Good k entry.value

  pub set-AllGood :
      {V : Type 0} (json : Json V B) (now : ℕ) (key : CacheKey) (value : V) (c : MemoryCache B)
      → AllGood c
      → ((bytes : B) → json.marshal value ≡ ok bytes → Good (key_string key) bytes)
      → AllGood (set json now key value c).0
  unfolding set store_entry
  set-AllGood json now key value c h good = elim (Result-cases (json.marshal value)) [
    | inr (x, e) ↦ rw (e, set) h
    | inl (bytes, e) ↦
        rw (e, set)
          (λ k entry found. elim (Bool-cases (key_string key == k)) [
            | inl same ↦
                let here =
                  rw
                    (
                      lookup-insert (key_string key) k
                          (record { value = bytes; expiration = now + c.ttl }) c.store,
                      same,
                    )
                    at found in
                let value_of : bytes ≡ entry.value = cc in
                let key_of : key_string key ≡ k = (eq_iff (key_string key) k).0 same in
                rw (← value_of, ← key_of) (good bytes e)
            | inr other ↦ h k entry (
                rw
                  (
                    lookup-insert (key_string key) k
                        (record { value = bytes; expiration = now + c.ttl }) c.store,
                    other,
                  )
                  at found)
          ])
  ]

  pub remove_expired-AllGood :
      (now : ℕ) (c : MemoryCache B) → IsMap c.store → AllGood c → AllGood (remove_expired now c)
  unfolding remove_expired
  remove_expired-AllGood now c m h k entry found = h k entry (
      ground (
        arith,
        found,
        lookup-delete_where (λ (j : String) (e : CacheEntry B). is_expired now e) k c.store m,
      ))

  pub invalidate_all-AllGood : (c : MemoryCache B) → AllGood (invalidate_by_pattern "*" c)
  unfolding invalidate_by_pattern lookup
  invalidate_all-AllGood c k entry found = absurd (cc)

  pub get-AllGood :
      (now : ℕ) (key : CacheKey) (c : MemoryCache B) (bytes : B)
      → AllGood c
      → get now key c ≡ some bytes
      → Good (key_string key) bytes
  unfolding get
  get-AllGood now key c bytes h found =
      let (entry, there, value_of, fresh) =
        fresh_found now (lookup (key_string key) c.store) bytes found in
      rw (← value_of) (h (key_string key) entry there)
