-- ===== src/Filters/Prices.antt =====
-- The price range of `aggregateFilters`: the tightest that the matched rules ask for.
use mathlib.Core.List.{Mem, mem-cons, mem-cons_self, mem-cons_of_mem, not-mem-nil}
use mathlib.Core.Logic.Or
use ctse_mood_rule_service.Common.{
  Bool, true, false, ◌≡◌, refl, ◌∙◌, ◌&&◌, ◌⊎◌, inl, inr, Option, none, some, List, [], ◌∷◌, arith,
  Bool-cases, false_prop,
}
use ctse_mood_rule_service.Common.Int.{pos}
use ctse_mood_rule_service.Float.{Float64, Float64Laws}
use ctse_mood_rule_service.Model.{Rule, PriceRange}
use ctse_mood_rule_service.Filters.{
  MapRange, Aggregate, raise_min, lower_max, add_filters, add_all_filters, no_filters,
  aggregate_filters,
}

false_right : (b : Bool) → (b && false) ≡ false
false_right true = refl
false_right false = refl

module _ {F : Type 0} ⦃fl : Float64 F⦄ where
  -- A rule's lower bound is not above the price.
  abbrev pub RespectsMin : F → Option (PriceRange F) → Type 0
  RespectsMin p none = Unit
  RespectsMin p (some range) = fl.gt range.min p ≡ false

  -- A rule's upper bound, if it is positive, is not below the price.
  abbrev pub RespectsMax : F → Option (PriceRange F) → Type 0
  RespectsMax p none = Unit
  RespectsMax p (some range) = (fl.gt range.max (fl.of_int (pos 0)) && fl.gt p range.max) ≡ false

  RespectsMin-prop : (p : F) (o : Option (PriceRange F)) → IsProp (RespectsMin p o)
  RespectsMin-prop p none = hlevel
  RespectsMin-prop p (some range) = false_prop (fl.gt range.min p)

  RespectsMax-prop : (p : F) (o : Option (PriceRange F)) → IsProp (RespectsMax p o)
  RespectsMax-prop p none = hlevel
  RespectsMax-prop p (some range) =
      false_prop (fl.gt range.max (fl.of_int (pos 0)) && fl.gt p range.max)

  -- The price is the starting value, or the bound of one of the rules.
  abbrev pub IsMinOf : F → F → List (Rule F) → Type 0
  IsMinOf start p rules =
      (p ≡ start)
      ⊎ ((r : Rule F) × (range : PriceRange F) × Mem r rules
          × (r.actions.price_range ≡ some range)
          × (p ≡ range.min))

  abbrev pub IsMaxOf : F → F → List (Rule F) → Type 0
  IsMaxOf start p rules =
      (p ≡ start)
      ⊎ ((r : Rule F) × (range : PriceRange F) × Mem r rules
          × (r.actions.price_range ≡ some range)
          × (p ≡ range.max)
          × (fl.gt range.max (fl.of_int (pos 0)) ≡ true))

  raise_min_cases :
      (p : F) (o : Option (PriceRange F))
      → (raise_min p o ≡ p)
        ⊎ ((range : PriceRange F) × (o ≡ some range) × (raise_min p o ≡ range.min))
  unfolding raise_min
  raise_min_cases p none = inl refl
  raise_min_cases p (some range) = elim (Bool-cases (fl.gt range.min p)) [
    | inl e ↦ rw e (inr (range, refl, refl))
    | inr e ↦ rw e (inl refl)
  ]

  lower_max_cases :
      (p : F) (o : Option (PriceRange F))
      → (lower_max p o ≡ p)
        ⊎ ((range : PriceRange F) × (o ≡ some range)
            × (lower_max p o ≡ range.max)
            × (fl.gt range.max (fl.of_int (pos 0)) ≡ true))
  unfolding lower_max
  lower_max_cases p none = inl refl
  lower_max_cases p (some range) =
      elim (Bool-cases (fl.gt range.max (fl.of_int (pos 0)) && fl.gt p range.max)) [
        | inl e ↦ rw e (inr (range, refl, refl, ground arith))
        | inr e ↦ rw e (inl refl)
      ]

  IsMinOf-rules :
      (rules : List (Rule F)) (a : Aggregate F)
      → IsMinOf a.min_price (add_all_filters rules a).min_price rules
  unfolding add_all_filters add_filters
  IsMinOf-rules [] a = inl refl
  IsMinOf-rules (r ∷ rules) a = elim (IsMinOf-rules rules (add_filters r a)) [
    | inr (s, range, m, e, q) ↦ inr (s, range, mem-cons_of_mem r m, e, q)
    | inl same ↦ elim (raise_min_cases a.min_price r.actions.price_range) [
      | inl kept ↦ inl (same ∙ kept)
      | inr (range, e, q) ↦ inr (r, range, mem-cons_self, e, same ∙ q)
    ]
  ]

  IsMaxOf-rules :
      (rules : List (Rule F)) (a : Aggregate F)
      → IsMaxOf a.max_price (add_all_filters rules a).max_price rules
  unfolding add_all_filters add_filters
  IsMaxOf-rules [] a = inl refl
  IsMaxOf-rules (r ∷ rules) a = elim (IsMaxOf-rules rules (add_filters r a)) [
    | inr (s, range, m, e, q, t) ↦ inr (s, range, mem-cons_of_mem r m, e, q, t)
    | inl same ↦ elim (lower_max_cases a.max_price r.actions.price_range) [
      | inl kept ↦ inl (same ∙ kept)
      | inr (range, e, q, t) ↦ inr (r, range, mem-cons_self, e, same ∙ q, t)
    ]
  ]

  module _ (laws : Float64Laws fl) where
    irrefl : (p : F) → fl.gt p p ≡ false
    irrefl p = elim (Bool-cases (fl.gt p p)) [ inl e ↦ laws.gt_asymm p p e | inr e ↦ e ]

    -- The loop only raises the minimum, and never to NaN.
    raise_min_lem :
        (p : F) (o : Option (PriceRange F))
        → fl.is_nan p ≡ false
        → (fl.is_nan (raise_min p o) ≡ false)
          × (fl.gt p (raise_min p o) ≡ false)
          × RespectsMin (raise_min p o) o
    unfolding raise_min
    raise_min_lem p none n = (n, irrefl p, tt)
    raise_min_lem p (some range) n = elim (Bool-cases (fl.gt range.min p)) [
      | inl e ↦
          rw e ((laws.gt_numbers range.min p e).0, laws.gt_asymm range.min p e, irrefl range.min)
      | inr e ↦ rw e (n, irrefl p, e)
    ]

    -- The loop only lowers the maximum, and never to NaN.
    lower_max_lem :
        (p : F) (o : Option (PriceRange F))
        → fl.is_nan p ≡ false
        → (fl.is_nan (lower_max p o) ≡ false)
          × (fl.gt (lower_max p o) p ≡ false)
          × RespectsMax (lower_max p o) o
    unfolding lower_max
    lower_max_lem p none n = (n, irrefl p, tt)
    lower_max_lem p (some range) n =
        elim (Bool-cases (fl.gt range.max (fl.of_int (pos 0)) && fl.gt p range.max)) [
          | inl e ↦
              let lower : fl.gt p range.max ≡ true = ground arith in
              rw e (
                (laws.gt_numbers p range.max lower).1,
                laws.gt_asymm p range.max lower,
                rw (irrefl range.max) (false_right (fl.gt range.max (fl.of_int (pos 0)))),
              )
          | inr e ↦ rw e (n, irrefl p, e)
        ]

    -- Through the rest of the loop a bound that was respected stays so.
    rise :
        (p q : F) (o : Option (PriceRange F))
        → fl.is_nan p ≡ false
        → fl.gt p q ≡ false
        → RespectsMin p o
        → RespectsMin q o
    rise p q none n up r = tt
    rise p q (some range) n up r = laws.gt_trans range.min p q n r up

    fall :
        (p q : F) (o : Option (PriceRange F))
        → fl.is_nan p ≡ false
        → fl.gt q p ≡ false
        → RespectsMax p o
        → RespectsMax q o
    fall p q none n down r = tt
    fall p q (some range) n down r = elim (Bool-cases (fl.gt range.max (fl.of_int (pos 0)))) [
      | inl t ↦ rw t (laws.gt_trans q p range.max n down (ground arith))
      | inr f ↦ rw f refl
    ]

    min_rises :
        (rules : List (Rule F)) (a : Aggregate F)
        → fl.is_nan a.min_price ≡ false
        → fl.gt a.min_price (add_all_filters rules a).min_price ≡ false
    unfolding add_all_filters add_filters
    min_rises [] a n = irrefl a.min_price
    min_rises (r ∷ rules) a n =
        let (number, up, _) = raise_min_lem a.min_price r.actions.price_range n in
        laws.gt_trans a.min_price (raise_min a.min_price r.actions.price_range)
          (add_all_filters rules (add_filters r a)).min_price number up
          (min_rises rules (add_filters r a) number)

    max_falls :
        (rules : List (Rule F)) (a : Aggregate F)
        → fl.is_nan a.max_price ≡ false
        → fl.gt (add_all_filters rules a).max_price a.max_price ≡ false
    unfolding add_all_filters add_filters
    max_falls [] a n = irrefl a.max_price
    max_falls (r ∷ rules) a n =
        let (number, down, _) = lower_max_lem a.max_price r.actions.price_range n in
        laws.gt_trans (add_all_filters rules (add_filters r a)).max_price
          (lower_max a.max_price r.actions.price_range) a.max_price number
          (max_falls rules (add_filters r a) number) down

    RespectsMin-rules :
        (rules : List (Rule F)) (a : Aggregate F) (r : Rule F)
        → fl.is_nan a.min_price ≡ false
        → Mem r rules
        → RespectsMin (add_all_filters rules a).min_price r.actions.price_range
    unfolding add_all_filters add_filters
    RespectsMin-rules [] a r n m = absurd (not-mem-nil m)
    RespectsMin-rules (x ∷ rules) a r n m =
        let next = add_filters x a in
        let (number, _, here) = raise_min_lem a.min_price x.actions.price_range n in
        Or.elim (RespectsMin-prop (add_all_filters rules next).min_price r.actions.price_range)
          (mem-cons.0 m)
          (λ e. rw e (
            rise next.min_price (add_all_filters rules next).min_price x.actions.price_range number
              (min_rises rules next number) here))
          (λ k. RespectsMin-rules rules next r number k)

    RespectsMax-rules :
        (rules : List (Rule F)) (a : Aggregate F) (r : Rule F)
        → fl.is_nan a.max_price ≡ false
        → Mem r rules
        → RespectsMax (add_all_filters rules a).max_price r.actions.price_range
    unfolding add_all_filters add_filters
    RespectsMax-rules [] a r n m = absurd (not-mem-nil m)
    RespectsMax-rules (x ∷ rules) a r n m =
        let next = add_filters x a in
        let (number, _, here) = lower_max_lem a.max_price x.actions.price_range n in
        Or.elim (RespectsMax-prop (add_all_filters rules next).max_price r.actions.price_range)
          (mem-cons.0 m)
          (λ e. rw e (
            fall next.max_price (add_all_filters rules next).max_price x.actions.price_range number
              (max_falls rules next number) here))
          (λ k. RespectsMax-rules rules next r number k)

  -- If `>` has its laws, then the prices of the query are the tightest that the matched rules ask for:
  -- for each matched rule, its minimum is not above the minimal price of the query, nor its maximum, if
  -- that is positive, below the maximal price; and the minimal price is 0 or the minimum of a matched
  -- rule, and the maximal price 1000000 or a positive maximum of a matched rule.
  pub aggregate_bounds :
      (laws : Float64Laws fl) (order : MapRange) (rules : List (Rule F)) (r : Rule F)
      → Mem r rules
      → RespectsMin (aggregate_filters order rules).min_price r.actions.price_range
        × RespectsMax (aggregate_filters order rules).max_price r.actions.price_range
        × IsMinOf (fl.of_int (pos 0)) (aggregate_filters order rules).min_price rules
        × IsMaxOf (fl.of_int (pos 1_000_000)) (aggregate_filters order rules).max_price rules
  unfolding aggregate_filters
  aggregate_bounds laws order rules r m = (
    RespectsMin-rules laws rules no_filters r (laws.of_int_number (pos 0)) m,
    RespectsMax-rules laws rules no_filters r (laws.of_int_number (pos 1_000_000)) m,
    IsMinOf-rules rules no_filters,
    IsMaxOf-rules rules no_filters,
  )
