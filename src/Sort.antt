-- ===== src/Sort.antt =====
-- Sorting: what Go documents of `sort.Slice`, and (in a child) the nested loops that
-- internal/grpc/server.go sorts by.
pub mod Exchange
use mathlib.Core.List.{Mem, Perm, Pairwise}
use ctse_mood_rule_service.Common.{Bool, true, false, ◌≡◌, List}

-- `less` is a strict weak order as long as the elements are good (a score that is no NaN).
pub record IsStrictWeak {A : Type 0} (less : A → A → Bool) (good : A → Bool) : Type 0 where
  pub asymm : (a b : A) → less a b ≡ true → less b a ≡ false
  pub trans : (a b c : A) → good b ≡ true → less b a ≡ false → less c b ≡ false → less c a ≡ false

-- No later element belongs before an earlier one.
abbrev pub IsSorted : {A : Type 0} → (A → A → Bool) → List A → Type 0
IsSorted less = Pairwise (λ a b. less b a ≡ false)

abbrev pub AllGood : {A : Type 0} → (A → Bool) → List A → Type 0
AllGood {A} good xs = (a : A) → Mem a xs → good a ≡ true

-- `sort.Slice(x, less)`, which is not stable: it rearranges the slice, and sorts it if `less` is a
-- strict weak order on what the slice holds.
pub record SortSlice (A : Type 0) : Type 0 where
  pub sort : (A → A → Bool) → List A → List A
  pub sort-perm : (less : A → A → Bool) (xs : List A) → Perm (sort less xs) xs
  pub sort-IsSorted :
      (less : A → A → Bool) (good : A → Bool) (xs : List A)
      → IsStrictWeak less good
      → AllGood good xs
      → IsSorted less (sort less xs)
