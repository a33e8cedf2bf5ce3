-- ===== src/Engine/Order.antt =====
-- The order in which `Evaluate` returns the rules.
use mathlib.Core.List.{Pairwise}
use mathlib.Core.List.Pairwise
use ctse_mood_rule_service.Common.{
  ℕ, Bool, true, false, not, ◌≡◌, arith, filter, mem-filter, ◌⊎◌, inl, inr, Bool-cases,
}
use ctse_mood_rule_service.Common.Int.{gtb_ℤ, eqb_ℤ_iff, gtb_ℤ_antisymm}
use ctse_mood_rule_service.Float.{Float64, Float64Laws}
use ctse_mood_rule_service.Model.{Rule, MatchContext}
use ctse_mood_rule_service.Match.{matches, calculate_score}
use ctse_mood_rule_service.Sort.{SortSlice, IsStrictWeak, AllGood}
use ctse_mood_rule_service.Engine.{RuleEngine, candidate_rules, before, evaluate}

module _ {F : Type 0} ⦃fl : Float64 F⦄ where
  -- The score is a number.
  abbrev pub has_score : Rule F → Bool
  has_score r = not (fl.is_nan (calculate_score r))

  -- A higher priority comes first, and of two rules of one priority the one with the higher score.
  abbrev pub Ranked : Rule F → Rule F → Type 0
  Ranked a b =
      (gtb_ℤ a.priority b.priority ≡ true)
      ⊎ ((a.priority ≡ b.priority) × (fl.gt (calculate_score b) (calculate_score a) ≡ false))

  before-Ranked : (a b : Rule F) → before b a ≡ false → Ranked a b
  unfolding before
  before-Ranked a b h = elim (Bool-cases (gtb_ℤ a.priority b.priority)) [
    | inl e ↦ inl e
    | inr e ↦
        let same : a.priority ≡ b.priority =
          gtb_ℤ_antisymm a.priority b.priority e
            (ground (arith, eqb_ℤ_iff b.priority a.priority)) in
        inr (same, ground (arith, eqb_ℤ_iff b.priority a.priority))
  ]

  module _ (laws : Float64Laws fl) where
    -- What `sort.Slice` asks of its `less`.
    pub before-IsStrictWeak : IsStrictWeak before has_score
    unfolding before
    before-IsStrictWeak = record {
      asymm = λ a b h. ground (arith, laws.gt_asymm (calculate_score a) (calculate_score b));
      trans = λ a b c g h k.
          ground (arith, laws.gt_trans (calculate_score c) (calculate_score b) (calculate_score a));
    }

    -- If `>` has its laws and every candidate rule has a score that is no NaN, then `Evaluate`
    -- returns the rules by falling priority, and rules of one priority by falling score.
    pub evaluate-Ranked :
        (slice : SortSlice (Rule F)) (e : RuleEngine F) (ctx : MatchContext) (duration : ℕ)
        → AllGood has_score (candidate_rules e ctx)
        → Pairwise Ranked (evaluate slice e ctx duration).0
    unfolding evaluate
    evaluate-Ranked slice e ctx duration g =
        let test = λ (rule : Rule F). matches rule ctx in
        Pairwise.imp before-Ranked (
          slice.sort-IsSorted before has_score (filter test (candidate_rules e ctx))
            before-IsStrictWeak (λ r m. g r ((mem-filter test (candidate_rules e ctx)).0 m).0))
