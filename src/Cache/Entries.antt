-- ===== src/Cache/Entries.antt =====
-- `Set`, `InvalidateByPattern` and the clean-up keep the store a map: each key stands in it once.
use ctse_mood_rule_service.Common.{
  ℕ, String, inl, inr, Bool-cases, IsMap, insert-IsMap, delete_all-IsMap, Result-cases, ◌==◌,
}
use ctse_mood_rule_service.Cache.{
  CacheKey, key_string, Json, MemoryCache, store_entry, set, invalidate_by_pattern, remove_expired,
}

module _ {B : Type 0} where
  pub set-IsMap :
      {V : Type 0} (json : Json V B) (now : ℕ) (key : CacheKey) (value : V) (c : MemoryCache B)
      → IsMap c.store
      → IsMap (set json now key value c).0.store
  unfolding set store_entry
  set-IsMap json now key value c h = elim (Result-cases (json.marshal value)) [
    | inl (bytes, e) ↦ rw (e, set) (insert-IsMap (key_string key) _ c.store h)
    | inr (x, e) ↦ rw (e, set) h
  ]

  pub invalidate_by_pattern-IsMap :
      (pattern : String) (c : MemoryCache B)
      → IsMap c.store
      → IsMap (invalidate_by_pattern pattern c).store
  unfolding invalidate_by_pattern
  invalidate_by_pattern-IsMap pattern c h = elim (Bool-cases (pattern == "*")) [
    | inl e ↦ rw (e, invalidate_by_pattern) tt
    | inr e ↦ rw (e, invalidate_by_pattern) (delete_all-IsMap _ c.store h)
  ]

  pub remove_expired-IsMap :
      (now : ℕ) (c : MemoryCache B) → IsMap c.store → IsMap (remove_expired now c).store
  unfolding remove_expired
  remove_expired-IsMap now c h = delete_all-IsMap _ c.store h
