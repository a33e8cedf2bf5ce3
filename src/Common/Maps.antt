-- ===== src/Common/Maps.antt =====
-- Go maps with string keys as association lists: a key stands at most once, because `insert`
-- overwrites in place and `delete` drops every entry of its key.
use Prim.Native.String.{String}
use mathlib.Core.Path.{◌≡◌, refl}
use mathlib.Core.Bool.{Bool, true, false}
use mathlib.Core.List.{List, [], ◌∷◌, map}
use mathlib.Core.Option.{Option, none, some}
use mathlib.Core.Logic.{inl, inr}
use native.Mathlib.Omega.{arith}
use text.Mathlib.Text.{◌==◌}
use text.Mathlib.TextEquality.{eq_iff}
use ctse_mood_rule_service.Common.Tests.{if◌then◌else◌, Bool-cases}

abbrev pub Dict {ℓ} : Type ℓ → Type ℓ
Dict V = List (String × V)

-- The members of a `[]string` compared by `==`.
abbrev pub contains : List String → String → Bool
contains [] s = false
contains (x ∷ xs) s = if x == s then true else contains xs s

module _ {ℓ} {V : Type ℓ} where
  -- `m[k]`, with `none` for a missing key.
  unfoldable pub lookup : String → Dict V → Option V
  lookup key [] = none
  lookup key ((first, value) ∷ rest) = if first == key then some value else lookup key rest

  -- `m[k] = v`.
  unfoldable pub insert : String → V → Dict V → Dict V
  insert key value [] = (key, value) ∷ []
  insert key value ((first, old) ∷ rest) =
      if first == key then (key, value) ∷ rest else (first, old) ∷ insert key value rest

  -- `delete(m, k)`.
  unfoldable pub delete : String → Dict V → Dict V
  delete key [] = []
  delete key ((first, value) ∷ rest) =
      if first == key then delete key rest else (first, value) ∷ delete key rest

  -- `for _, k := range ks { delete(m, k) }`.
  unfoldable pub delete_all : List String → Dict V → Dict V
  delete_all [] m = m
  delete_all (k ∷ ks) m = delete_all ks (delete k m)

  abbrev pub keys : Dict V → List String
  keys = map (λ e. e.0)

  pub lookup-insert :
      (key other : String) (value : V) (dict : Dict V)
      → lookup other (insert key value dict)
        ≡ (if key == other then some value else lookup other dict)
  unfolding lookup insert
  lookup-insert key other value ((first, _) ∷ rest) = ground (
    arith,
    lookup-insert key other value rest,
    eq_iff first other,
    eq_iff first key,
    eq_iff key other,
  )
  lookup-insert key other value [] = refl

  pub lookup-delete :
      (k j : String) (m : Dict V) → lookup j (delete k m) ≡ (if k == j then none else lookup j m)
  unfolding lookup delete
  lookup-delete k j [] = ground arith
  lookup-delete k j ((i, v) ∷ m) =
      ground (arith, lookup-delete k j m, eq_iff i k, eq_iff i j, eq_iff k j)

  pub lookup-delete_all :
      (ks : List String) (j : String) (m : Dict V)
      → lookup j (delete_all ks m) ≡ (if contains ks j then none else lookup j m)
  unfolding delete_all
  lookup-delete_all [] j m = refl
  lookup-delete_all (k ∷ ks) j m =
      ground (arith, lookup-delete_all ks j (delete k m), lookup-delete k j m)

  -- Every key stands once, as in a Go map.
  abbrev pub IsMap : Dict V → Type ℓ
  IsMap [] = Unit
  IsMap ((k, v) ∷ m) = (lookup k m ≡ none) × IsMap m

  pub insert-IsMap : (k : String) (v : V) (m : Dict V) → IsMap m → IsMap (insert k v m)
  unfolding insert lookup
  insert-IsMap k v [] h = (refl, tt)
  insert-IsMap k v ((j, w) ∷ m) h = elim (Bool-cases (j == k)) [
    | inl e ↦ rw (e, insert) (ground (arith, eq_iff j k), h.1)
    | inr e ↦
        rw (e, insert)
          (ground (arith, lookup-insert k j v m, eq_iff j k, eq_iff k j), insert-IsMap k v m h.1)
  ]

  pub delete-IsMap : (k : String) (m : Dict V) → IsMap m → IsMap (delete k m)
  unfolding delete
  delete-IsMap k [] h = tt
  delete-IsMap k ((j, w) ∷ m) h = elim (Bool-cases (j == k)) [
    | inl e ↦ rw e (delete-IsMap k m h.1)
    | inr e ↦ rw e (ground (arith, lookup-delete k j m), delete-IsMap k m h.1)
  ]

  pub delete_all-IsMap : (ks : List String) (m : Dict V) → IsMap m → IsMap (delete_all ks m)
  unfolding delete_all
  delete_all-IsMap [] m h = h
  delete_all-IsMap (k ∷ ks) m h = delete_all-IsMap ks (delete k m) (delete-IsMap k m h)

  -- The keys whose values pass a test, as a loop over the map collects them.
  unfoldable pub keys_where : (String → V → Bool) → Dict V → List String
  keys_where p [] = []
  keys_where p ((k, v) ∷ m) = if p k v then k ∷ keys_where p m else keys_where p m

  abbrev pub holds_at : (String → V → Bool) → String → Option V → Bool
  holds_at p k none = false
  holds_at p k (some v) = p k v

  pub contains-keys_where :
      (p : String → V → Bool) (j : String) (m : Dict V)
      → IsMap m
      → contains (keys_where p m) j ≡ holds_at p j (lookup j m)
  unfolding keys_where lookup
  contains-keys_where p j [] h = refl
  contains-keys_where p j ((k, v) ∷ m) h = ground (arith, contains-keys_where p j m, eq_iff k j)

  -- To collect the keys whose values pass and to delete them keeps what fails the test.
  pub lookup-delete_where :
      (p : String → V → Bool) (j : String) (m : Dict V)
      → IsMap m
      → lookup j (delete_all (keys_where p m) m)
        ≡ (if holds_at p j (lookup j m) then none else lookup j m)
  lookup-delete_where p j m h =
      rw (lookup-delete_all (keys_where p m) j m, contains-keys_where p j m h)
