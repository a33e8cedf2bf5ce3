-- ===== src/Sort/Exchange.antt =====
-- The exchange sort of `scoreProducts` in internal/grpc/server.go, over any test for "belongs
-- before": `for i { for j := i+1 … { if before(a[j], a[i]) { a[i], a[j] = a[j], a[i] } } }`.
use mathlib.Core.List.{Mem, Perm, Pairwise, mem-cons, mem-cons_self, mem-cons_of_mem, not-mem-nil}
use mathlib.Core.List.Perm
use mathlib.Core.Logic.Or
use ctse_mood_rule_service.Common.{
  ℕ, zero, suc, ◌≤◌, Bool, true, false, ◌≡◌, refl, List, [], ◌∷◌, arith, if◌then◌else◌, length,
  Bool-cases, inl, inr, false_prop,
}
use ctse_mood_rule_service.Sort.{IsStrictWeak, IsSorted, AllGood, SortSlice}

module _ {A : Type 0} (before : A → A → Bool) where
  -- The loop over `j`: `x` is what stands at `i`, the list is what stands behind it.
  pub select : A → List A → A × List A
  select x [] = (x, [])
  select x (y ∷ ys) =
      let (m, rest) = select (if before y x then y else x) ys in
      (m, (if before y x then x else y) ∷ rest)

  -- The loop over `i`, with the number of rounds that are left.
  pub exchange : ℕ → List A → List A
  exchange zero xs = xs
  exchange (suc n) [] = []
  exchange (suc n) (x ∷ xs) = let (m, rest) = select x xs in m ∷ exchange n rest

  unfoldable pub exchange_sort : List A → List A
  unfolding select exchange
  exchange_sort xs = exchange (length xs) xs

  under :
      {m p q : A} {rest ys : List A} → Perm (m ∷ rest) (p ∷ ys) → Perm (m ∷ q ∷ rest) (q ∷ p ∷ ys)
  under {m} {q = q} {rest} h = Perm.trans (Perm.swap q m rest) (Perm.cons q h)

  select-perm : (x : A) (xs : List A) → Perm ((select x xs).0 ∷ (select x xs).1) (x ∷ xs)
  unfolding select
  select-perm x [] = Perm.rfl
  select-perm x (y ∷ ys) = elim (Bool-cases (before y x)) [
    | inl e ↦ rw e (under (select-perm y ys))
    | inr e ↦ rw e (Perm.trans (under (select-perm x ys)) (Perm.swap x y ys))
  ]

  exchange-perm : (n : ℕ) (xs : List A) → Perm (exchange n xs) xs
  unfolding exchange
  exchange-perm zero xs = Perm.rfl
  exchange-perm (suc n) [] = Perm.rfl
  exchange-perm (suc n) (x ∷ xs) =
      Perm.trans (Perm.cons _ (exchange-perm n (select x xs).1)) (select-perm x xs)

  -- The nested loops rearrange what they are given.
  pub exchange_sort-perm : (xs : List A) → Perm (exchange_sort xs) xs
  unfolding exchange_sort
  exchange_sort-perm xs = exchange-perm (length xs) xs

  length-select : (x : A) (xs : List A) → length (select x xs).1 ≡ length xs
  unfolding select
  length-select x [] = refl
  length-select x (y ∷ ys) = omega (arith, length-select (if before y x then y else x) ys)

  module _ {good : A → Bool} (order : IsStrictWeak before good) where
    irrefl : (a : A) → before a a ≡ false
    irrefl a = elim (Bool-cases (before a a)) [ inl e ↦ order.asymm a a e | inr e ↦ e ]

    -- If nothing in `p ∷ ys` belongs before `m`, then nor does what does not belong before `p`.
    least_with :
        {m p q : A} {ys : List A}
        → good p ≡ true
        → before q p ≡ false
        → ((z : A) → Mem z (p ∷ ys) → before z m ≡ false)
        → (z : A) → Mem z (q ∷ p ∷ ys)
        → before z m ≡ false
    least_with {m} {p} {q} g low least z i =
        Or.elim (false_prop (before z m)) (mem-cons.0 i)
          (λ here. rw here (order.trans m p q g (least p mem-cons_self) low))
          (λ later. least z later)

    -- No element of the list belongs before the one that the loop over `j` leaves at `i`.
    select-least :
        (x : A) (xs : List A)
        → AllGood good (x ∷ xs)
        → (z : A) → Mem z (x ∷ xs)
        → before z (select x xs).0 ≡ false
    unfolding select
    select-least x [] g z i =
        Or.elim (false_prop (before z x)) (mem-cons.0 i) (λ here. rw here (irrefl x))
          (λ later. absurd (not-mem-nil later))
    select-least x (y ∷ ys) g z i = elim (Bool-cases (before y x)) [
      | inl e ↦ rw e (
          least_with (g y (mem-cons_of_mem x mem-cons_self)) (order.asymm y x e)
            (select-least y ys (λ a k. g a (mem-cons_of_mem x k))) z i)
      | inr e ↦ rw e (
          least_with (g x mem-cons_self) e
            (select-least x ys
              (λ a k. g a ((Perm.mem_iff (Perm.swap x y ys)).0 (mem-cons_of_mem y k))))
            z ((Perm.mem_iff (Perm.swap y x ys)).0 i))
    ]

    exchange-IsSorted :
        (n : ℕ) (xs : List A) → length xs ≤ n → AllGood good xs → IsSorted before (exchange n xs)
    unfolding exchange
    exchange-IsSorted zero [] h g = Pairwise.nil
    exchange-IsSorted zero (x ∷ xs) h g = absurd (omega arith)
    exchange-IsSorted (suc n) [] h g = Pairwise.nil
    exchange-IsSorted (suc n) (x ∷ xs) h g =
        let (m, rest) = select x xs in
        let whole = select-perm x xs in
        let back = exchange-perm n rest in
        Pairwise.cons
          (λ a k.
            select-least x xs g a
              ((Perm.mem_iff whole).0 (mem-cons_of_mem m ((Perm.mem_iff back).0 k))))
          (exchange-IsSorted n rest (omega (arith, length-select x xs))
            (λ a k. g a ((Perm.mem_iff whole).0 (mem-cons_of_mem m k))))

    -- The nested loops sort, as long as all elements are good: as many rounds as there are elements
    -- are enough.
    pub exchange_sort-IsSorted :
        (xs : List A) → AllGood good xs → IsSorted before (exchange_sort xs)
    unfolding exchange_sort
    exchange_sort-IsSorted xs g = exchange-IsSorted (length xs) xs (omega arith) g

-- What `sort.Slice` documents can be met: these loops do.
abbrev pub exchange_slice : {A : Type 0} → SortSlice A
exchange_slice = record {
  sort = exchange_sort;
  sort-perm = exchange_sort-perm;
  sort-IsSorted = λ less good xs order g. exchange_sort-IsSorted less order xs g;
}
