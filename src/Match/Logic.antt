-- ===== src/Match/Logic.antt =====
-- AND and OR of internal/model/rule.go's `Matches`: the two counters against the six criteria.
use mathlib.Core.List.{Mem, mem-cons_self, mem-cons_of_mem}
use ctse_mood_rule_service.Common.{
  ℕ, String, ◌≤◌, ◌<◌, Bool, true, false, ◌&&◌, ◌≡◌, ◌≢◌, refl, ◌↔◌, List, [], ◌∷◌, arith, eq_iff,
  ltb, ltb→lt, lt→ltb, eqb, if◌then◌else◌, Bool-cases, inl, inr, any, all, length, any_of_mem,
  witness_of_any, test_of_mem, all_of_forall,
}
use ctse_mood_rule_service.Model.{Rule, RuleConditions, MatchContext}
use ctse_mood_rule_service.Match.{
  Counts, matches_slice, matches_preferences, matches_tags, count_condition, count_matches,
  decide_logic, matches,
}
use ctse_mood_rule_service.Match.Criteria.{
  HasAll, Share, matches_slice_iff, matches_preferences_iff, matches_tags_iff,
}

-- What a rule may ask about.
pub data Criterion : Type 0 where
  by_mood by_time by_weather by_occasion by_preferences by_tags : Criterion

criteria : List Criterion
criteria = by_mood ∷ by_time ∷ by_weather ∷ by_occasion ∷ by_preferences ∷ by_tags ∷ []

mem-criteria : (c : Criterion) → Mem c criteria
unfolding criteria
mem-criteria by_mood = mem-cons_self
mem-criteria by_time = mem-cons_of_mem _ mem-cons_self
mem-criteria by_weather = mem-cons_of_mem _ (mem-cons_of_mem _ mem-cons_self)
mem-criteria by_occasion = mem-cons_of_mem _ (mem-cons_of_mem _ (mem-cons_of_mem _ mem-cons_self))
mem-criteria by_preferences =
    mem-cons_of_mem _ (mem-cons_of_mem _ (mem-cons_of_mem _ (mem-cons_of_mem _ mem-cons_self)))
mem-criteria by_tags =
    mem-cons_of_mem _
      (mem-cons_of_mem _ (mem-cons_of_mem _ (mem-cons_of_mem _ (mem-cons_of_mem _ mem-cons_self))))

abbrev pub size : RuleConditions → Criterion → ℕ
size k by_mood = length k.mood
size k by_time = length k.time_of_day
size k by_weather = length k.weather
size k by_occasion = length k.occasion
size k by_preferences = length k.preferences
size k by_tags = length k.tags

-- The rule sets the criterion.
abbrev pub IsAsked : RuleConditions → Criterion → Type 0
IsAsked k c = 0 < size k c

-- The context meets the criterion.
abbrev pub IsMet : RuleConditions → MatchContext → Criterion → Type 0
IsMet k ctx by_mood = Mem ctx.mood k.mood
IsMet k ctx by_time = Mem ctx.time_of_day k.time_of_day
IsMet k ctx by_weather = Mem ctx.weather k.weather
IsMet k ctx by_occasion = Mem ctx.occasion k.occasion
IsMet k ctx by_preferences = HasAll ctx.preferences k.preferences
IsMet k ctx by_tags = Share ctx.purchase_history_tags k.tags

module _ (k : RuleConditions) (ctx : MatchContext) where
  verdict : Criterion → Bool
  verdict by_mood = matches_slice ctx.mood k.mood
  verdict by_time = matches_slice ctx.time_of_day k.time_of_day
  verdict by_weather = matches_slice ctx.weather k.weather
  verdict by_occasion = matches_slice ctx.occasion k.occasion
  verdict by_preferences = matches_preferences ctx.preferences k.preferences
  verdict by_tags = matches_tags ctx.purchase_history_tags k.tags

  verdict_iff : (c : Criterion) → (verdict c ≡ true) ↔ IsMet k ctx c
  unfolding verdict
  verdict_iff by_mood = matches_slice_iff ctx.mood k.mood
  verdict_iff by_time = matches_slice_iff ctx.time_of_day k.time_of_day
  verdict_iff by_weather = matches_slice_iff ctx.weather k.weather
  verdict_iff by_occasion = matches_slice_iff ctx.occasion k.occasion
  verdict_iff by_preferences = matches_preferences_iff ctx.preferences k.preferences
  verdict_iff by_tags = matches_tags_iff ctx.purchase_history_tags k.tags

  tally : List Criterion → Counts → Counts
  tally [] n = n
  tally (c ∷ cs) n = tally cs (count_condition (size k c) (verdict c) n)

  set : Criterion → Bool
  set c = ltb 0 (size k c)

  hit : Criterion → Bool
  hit c = set c && verdict c

  pass : Criterion → Bool
  pass c = if set c then verdict c else true

  -- The first counter never passes the second.
  abbrev Ordered : Counts → Type 0
  Ordered n = n.match_count ≤ n.total_conditions

  count_matches-tally :
      count_matches k ctx ≡ tally criteria (record { match_count = 0; total_conditions = 0 })
  unfolding tally verdict count_matches criteria matches_slice matches_preferences matches_tags
  count_matches-tally = refl

  tally-hit :
      (cs : List Criterion) (n : Counts)
      → ltb 0 (tally cs n).match_count ≡ (if ltb 0 n.match_count then true else any hit cs)
  unfolding tally hit set count_condition
  tally-hit [] n = ground arith
  tally-hit (c ∷ cs) n = ground (arith, tally-hit cs (count_condition (size k c) (verdict c) n))

  tally-set :
      (cs : List Criterion) (n : Counts)
      → ltb 0 (tally cs n).total_conditions
        ≡ (if ltb 0 n.total_conditions then true else any set cs)
  unfolding tally set count_condition
  tally-set [] n = ground arith
  tally-set (c ∷ cs) n = ground (arith, tally-set cs (count_condition (size k c) (verdict c) n))

  tally-pass :
      (cs : List Criterion) (n : Counts)
      → Ordered n
      → eqb (tally cs n).match_count (tally cs n).total_conditions
        ≡ (if eqb n.match_count n.total_conditions then all pass cs else false)
  unfolding tally pass set count_condition
  tally-pass [] n h = ground arith
  tally-pass (c ∷ cs) n h = ground (arith, tally-pass cs (count_condition (size k c) (verdict c) n))

  decide-and :
      (logic : String)
      → logic ≢ "OR"
      → decide_logic logic (count_matches k ctx) ≡ (any set criteria && all pass criteria)
  unfolding decide_logic
  decide-and logic h = ground (
    arith,
    eq_iff logic "OR",
    count_matches-tally,
    tally-set criteria (record { match_count = 0; total_conditions = 0 }),
    tally-pass criteria (record { match_count = 0; total_conditions = 0 }) (omega arith),
  )

  decide-or :
      (logic : String) → logic ≡ "OR" → decide_logic logic (count_matches k ctx) ≡ any hit criteria
  unfolding decide_logic
  decide-or logic h = ground (
    arith,
    eq_iff logic "OR",
    count_matches-tally,
    tally-hit criteria (record { match_count = 0; total_conditions = 0 }),
  )

  -- Every criterion that the rule sets is met.
  abbrev pub AllMet : Type 0
  AllMet = (c : Criterion) → IsAsked k c → IsMet k ctx c

  -- Some criterion that the rule sets is met.
  abbrev pub SomeMet : Type 0
  SomeMet = (c : Criterion) × IsAsked k c × IsMet k ctx c

  pass_iff : (c : Criterion) → (pass c ≡ true) ↔ (IsAsked k c → IsMet k ctx c)
  unfolding pass set
  pass_iff c = (
    λ h asked. (verdict_iff c).0 (rw (lt→ltb 0 (size k c) asked) at h),
    λ h. elim (Bool-cases (ltb 0 (size k c))) [
      | inl e ↦ rw e ((verdict_iff c).1 (h (ltb→lt 0 (size k c) e)))
      | inr e ↦ rw e
    ],
  )

  hit_iff : (c : Criterion) → (hit c ≡ true) ↔ (IsAsked k c × IsMet k ctx c)
  unfolding hit set
  hit_iff c = (
    λ h. (ltb→lt 0 (size k c) (ground arith), (verdict_iff c).0 (ground arith)),
    λ (asked, met). rw (lt→ltb 0 (size k c) asked) ((verdict_iff c).1 met),
  )

  all-pass_iff : (all pass criteria ≡ true) ↔ AllMet
  all-pass_iff = (
    λ h c. (pass_iff c).0 (test_of_mem pass criteria h (mem-criteria c)),
    λ h. all_of_forall pass criteria (λ c _. (pass_iff c).1 (h c)),
  )

  any-set_iff : (any set criteria ≡ true) ↔ ((c : Criterion) × IsAsked k c)
  unfolding set
  any-set_iff = (
    λ h. let (c, _, t) = witness_of_any set criteria h in (c, ltb→lt 0 (size k c) t),
    λ (c, asked). any_of_mem set criteria (lt→ltb 0 (size k c) asked) (mem-criteria c),
  )

  any-hit_iff : (any hit criteria ≡ true) ↔ SomeMet
  any-hit_iff = (
    λ h.
        let (c, _, t) = witness_of_any hit criteria h in
        let (asked, met) = (hit_iff c).0 t in (c, asked, met),
    λ (c, asked, met). any_of_mem hit criteria ((hit_iff c).1 (asked, met)) (mem-criteria c),
  )

-- The result of `Matches` from the verdict over the counters.
matches-active :
    {F : Type 0} (r : Rule F) (ctx : MatchContext)
    → matches r ctx ≡ (r.active && decide_logic r.conditions.logic (count_matches r.conditions ctx))
unfolding matches
matches-active r ctx = ground arith

module _ {F : Type 0} (r : Rule F) (ctx : MatchContext) where
  -- A rule whose logic is not the text "OR" matches exactly if it is active, asks about at least
  -- one criterion, and every criterion that it asks about is met.
  pub matches-and_iff :
      r.conditions.logic ≢ "OR"
      → (matches r ctx ≡ true)
        ↔ ((r.active ≡ true) × ((c : Criterion) × IsAsked r.conditions c) × AllMet r.conditions ctx)
  matches-and_iff h =
      let k = r.conditions in
      let e = decide-and k ctx k.logic h in
      (
        λ m. (
          ground (arith, matches-active r ctx),
          (any-set_iff k ctx).0 (ground (arith, matches-active r ctx, e)),
          (all-pass_iff k ctx).0 (ground (arith, matches-active r ctx, e)),
        ),
        λ (active, some_asked, met). ground (
          arith,
          matches-active r ctx,
          e,
          (any-set_iff k ctx).1 some_asked,
          (all-pass_iff k ctx).1 met,
        ),
      )

  -- A rule whose logic is "OR" matches exactly if it is active and at least one criterion that it
  -- asks about is met.
  pub matches-or_iff :
      r.conditions.logic ≡ "OR"
      → (matches r ctx ≡ true) ↔ ((r.active ≡ true) × SomeMet r.conditions ctx)
  matches-or_iff h =
      let k = r.conditions in
      let e = decide-or k ctx k.logic h in
      (
        λ m. (
          ground (arith, matches-active r ctx),
          (any-hit_iff k ctx).0 (ground (arith, matches-active r ctx, e)),
        ),
        λ (active, met). ground (arith, matches-active r ctx, e, (any-hit_iff k ctx).1 met),
      )
