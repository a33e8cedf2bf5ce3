-- ===== src/Common/Lists.antt =====
-- Lists measured by native numbers, Boolean filters and their members.
use mathlib.Core.HLevel.{×_prop}
use mathlib.Core.List.{
  List, [], ◌∷◌, ◌++◌, Mem, Mem-prop, mem-cons, not-mem-nil, mem-cons_self, mem-cons_of_mem,
}
use mathlib.Core.List as L
use mathlib.Core.List.{Perm, Permᴰ}
use mathlib.Core.List.Perm
use mathlib.Core.Logic.Or
use mathlib.Core.Logic.{◌↔◌, inl, inr, ∥∥₁_elim}
use mathlib.Core.Path.{◌≡◌, refl, ap, ◌∙◌}
use mathlib.Core.Bool.{Bool, true, false, ◌&&◌}
use Prim.Native.Nat.{ℕ, suc, ◌+◌, ◌≤◌}
use native.Mathlib.Nat.{ℕ_set}
use native.Mathlib.Omega.{arith}
use ctse_mood_rule_service.Common.Tests.{if◌then◌else◌, Bool-cases}

pub true_prop : (b : Bool) → IsProp (b ≡ true)
true_prop b = hlevel

pub false_prop : (b : Bool) → IsProp (b ≡ false)
false_prop b = hlevel

module _ {ℓ} {A : Type ℓ} where
  abbrev pub length : List A → ℕ
  length [] = 0
  length (x ∷ xs) = suc (length xs)

  -- The members that pass a test, in order: `for … if … { out = append(out, x) }`.
  abbrev pub filter : (A → Bool) → List A → List A
  filter p [] = []
  filter p (x ∷ xs) = if p x then x ∷ filter p xs else filter p xs

  -- Whether some member passes a test: a loop that returns true at the first one.
  abbrev pub any : (A → Bool) → List A → Bool
  any p [] = false
  any p (x ∷ xs) = if p x then true else any p xs

  -- Whether every member passes a test: a loop that returns false at the first failure.
  abbrev pub all : (A → Bool) → List A → Bool
  all p [] = true
  all p (x ∷ xs) = if p x then all p xs else false

  pub length-append : (xs ys : List A) → length (xs ++ ys) ≡ length xs + length ys
  length-append [] ys = omega arith
  length-append (x ∷ xs) ys = omega (arith, length-append xs ys)

  pub filter-append :
      (p : A → Bool) (xs ys : List A) → filter p (xs ++ ys) ≡ filter p xs ++ filter p ys
  filter-append p [] ys = refl
  filter-append p (x ∷ xs) ys = ground (arith, filter-append p xs ys)

module _ {ℓ} {A : Type ℓ} (p : A → Bool) {a : A} where
  pub mem_of_mem-filter : (xs : List A) → Mem a (filter p xs) → Mem a xs × (p a ≡ true)
  mem_of_mem-filter [] m = absurd (not-mem-nil m)
  mem_of_mem-filter (x ∷ xs) m = elim (Bool-cases (p x)) [
    | inl e ↦
        Or.elim (×_prop Mem-prop (true_prop (p a))) (mem-cons.0 (rw e at m))
          (λ here. (rw here mem-cons_self, rw here e))
          (λ later. let (i, t) = mem_of_mem-filter xs later in (mem-cons_of_mem x i, t))
    | inr e ↦ let (i, t) = mem_of_mem-filter xs (rw e at m) in (mem-cons_of_mem x i, t)
  ]

  pub mem-filter_of_mem : (xs : List A) → p a ≡ true → Mem a xs → Mem a (filter p xs)
  mem-filter_of_mem [] t m = absurd (not-mem-nil m)
  mem-filter_of_mem (x ∷ xs) t m =
      Or.elim Mem-prop (mem-cons.0 m) (λ here. rw (← here, t) mem-cons_self)
        (λ later. elim (Bool-cases (p x)) [
          | inl e ↦ rw e (mem-cons_of_mem x (mem-filter_of_mem xs t later))
          | inr e ↦ rw e (mem-filter_of_mem xs t later)
        ])

  pub mem-filter : (xs : List A) → Mem a (filter p xs) ↔ (Mem a xs × (p a ≡ true))
  mem-filter xs = (mem_of_mem-filter xs, λ h. mem-filter_of_mem xs h.1 h.0)

  pub test_of_mem : (xs : List A) → all p xs ≡ true → Mem a xs → p a ≡ true
  test_of_mem [] h m = absurd (not-mem-nil m)
  test_of_mem (x ∷ xs) h m =
      Or.elim (true_prop (p a)) (mem-cons.0 m) (λ here. rw here (ground arith))
        (λ later. test_of_mem xs (ground arith) later)

module _ {ℓ} {A : Type ℓ} (p : A → Bool) where
  pub all_of_forall : (xs : List A) → ((a : A) → Mem a xs → p a ≡ true) → all p xs ≡ true
  all_of_forall [] h = refl
  all_of_forall (x ∷ xs) h =
      rw (h x mem-cons_self) (all_of_forall xs (λ a m. h a (mem-cons_of_mem x m)))

  -- `any` finds a witness, and every witness is found.
  pub witness_of_any : (xs : List A) → any p xs ≡ true → (a : A) × Mem a xs × (p a ≡ true)
  witness_of_any [] h = absurd (cc)
  witness_of_any (x ∷ xs) h = elim (Bool-cases (p x)) [
    | inl e ↦ (x, mem-cons_self, e)
    | inr e ↦ let (a, m, t) = witness_of_any xs (rw e at h) in (a, mem-cons_of_mem x m, t)
  ]

  pub any_of_mem : {a : A} (xs : List A) → p a ≡ true → Mem a xs → any p xs ≡ true
  any_of_mem [] t m = absurd (not-mem-nil m)
  any_of_mem (x ∷ xs) t m =
      Or.elim (true_prop (any p (x ∷ xs))) (mem-cons.0 m) (λ here. rw (← here, t))
        (λ later. ground (arith, any_of_mem xs t later))

dec_true : (b : Bool) → Dec (b ≡ true)
dec_true true = yes refl
dec_true false = no (λ e. cc)

module _ {ℓ} {A : Type ℓ} where
  -- The library's filter, which takes decisions.
  filter-decided : (p : A → Bool) (xs : List A) → filter p xs ≡ L.filter (λ a. dec_true (p a)) xs
  unfolding dec_true
  filter-decided p [] = refl
  filter-decided p (x ∷ xs) = elim (Bool-cases (p x)) [
    | inl e ↦ rw (e, dec_true) (ap (◌∷◌ x) (filter-decided p xs))
    | inr e ↦ rw (e, dec_true) (filter-decided p xs)
  ]

  pub filter-perm : (p : A → Bool) {xs ys : List A} → Perm xs ys → Perm (filter p xs) (filter p ys)
  filter-perm p {xs} {ys} h =
      rw (filter-decided p xs, filter-decided p ys) (Perm.filter (λ a. dec_true (p a)) h)

  length-permᴰ : {xs ys : List A} → Permᴰ xs ys → length xs ≡ length ys
  length-permᴰ Permᴰ.nil = refl
  length-permᴰ (Permᴰ.cons e h) = ap suc (length-permᴰ h)
  length-permᴰ (Permᴰ.swap e f) = refl
  length-permᴰ (Permᴰ.trans h k) = length-permᴰ h ∙ length-permᴰ k

  pub length-perm : {xs ys : List A} → Perm xs ys → length xs ≡ length ys
  length-perm {xs} {ys} h = ∥∥₁_elim h (ℕ_set (length xs) (length ys)) length-permᴰ

  pub filter-filter :
      (p q : A → Bool) (xs : List A) → filter p (filter q xs) ≡ filter (λ a. q a && p a) xs
  filter-filter p q [] = refl
  filter-filter p q (x ∷ xs) = ground (arith, filter-filter p q xs)

  pub length-filter-le : (p : A → Bool) (xs : List A) → length (filter p xs) ≤ length xs
  length-filter-le p [] = omega arith
  length-filter-le p (x ∷ xs) = ground (arith, length-filter-le p xs)
