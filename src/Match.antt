-- ===== src/Match.antt =====
-- `Rule.Matches` and `Rule.CalculateScore` of internal/model/rule.go, with the loops it calls.
pub mod Criteria
pub mod Logic
use ctse_mood_rule_service.Common.{
  ℕ, suc, ◌+◌, ◌*◌, String, Bool, true, false, not, ◌&&◌, Option, none, some, List, [], ◌∷◌, ltb,
  eqb, ◌==◌, if◌then◌else◌, Dict, lookup, insert, length,
}
use ctse_mood_rule_service.Common.Int.{pos}
use ctse_mood_rule_service.Float.{Float64}
use ctse_mood_rule_service.Model.{Rule, RuleConditions, MatchContext}

-- `matchesSlice`
pub matches_slice : String → List String → Bool
matches_slice value [] = false
matches_slice value (candidate ∷ candidates) =
    if value == candidate then true else matches_slice value candidates

-- `!exists || userValue != ruleValue`
pub preference_fails : Option String → String → Bool
preference_fails none rule_value = true
preference_fails (some user_value) rule_value = not (user_value == rule_value)

-- `matchesPreferences`: the map of the rule in some order of iteration.
pub matches_preferences : Dict String → Dict String → Bool
unfolding preference_fails
matches_preferences user_prefs [] = true
matches_preferences user_prefs ((key, rule_value) ∷ rule_prefs) =
    if preference_fails (lookup key user_prefs) rule_value
    then false
    else matches_preferences user_prefs rule_prefs

-- `tagMap[tag] = true` for every tag, from the map built so far.
pub mark_tags : Dict Bool → List String → Dict Bool
mark_tags tag_map [] = tag_map
mark_tags tag_map (tag ∷ tags) = mark_tags (insert tag true tag_map) tags

-- `tagMap[ruleTag]`: the zero value `false` for a missing key.
pub is_marked : Dict Bool → String → Bool
is_marked tag_map tag = elim (lookup tag tag_map) [ none ↦ false | some b ↦ b ]

pub any_marked : Dict Bool → List String → Bool
any_marked tag_map [] = false
any_marked tag_map (rule_tag ∷ rule_tags) =
    if is_marked tag_map rule_tag then true else any_marked tag_map rule_tags

-- `matchesTags`
pub matches_tags : List String → List String → Bool
unfolding mark_tags is_marked any_marked
matches_tags user_tags rule_tags = any_marked (mark_tags [] user_tags) rule_tags

-- The two counters of `Matches`.
pub record Counts : Type 0 where
  pub match_count : ℕ
  pub total_conditions : ℕ

-- One `if len(…) > 0 { totalConditions++; if … { matchCount++ } }`.
pub count_condition : ℕ → Bool → Counts → Counts
count_condition size met c =
    if ltb 0 size
    then record {
      match_count = if met then c.match_count + 1 else c.match_count;
      total_conditions = c.total_conditions + 1;
    }
    else c

-- The six checks, in the order of the source.
pub count_matches : RuleConditions → MatchContext → Counts
unfolding matches_slice matches_preferences matches_tags count_condition
count_matches k ctx =
    let start : Counts = record { match_count = 0; total_conditions = 0 } in
    let mood = count_condition (length k.mood) (matches_slice ctx.mood k.mood) start in
    let time =
      count_condition (length k.time_of_day) (matches_slice ctx.time_of_day k.time_of_day) mood in
    let weather = count_condition (length k.weather) (matches_slice ctx.weather k.weather) time in
    let occasion =
      count_condition (length k.occasion) (matches_slice ctx.occasion k.occasion) weather in
    let preferences =
      count_condition (length k.preferences) (matches_preferences ctx.preferences k.preferences)
        occasion in
    count_condition (length k.tags) (matches_tags ctx.purchase_history_tags k.tags) preferences

-- The verdict over the counters: `Logic == "OR"`, and everything else is read as AND.
pub decide_logic : String → Counts → Bool
decide_logic logic c =
    if logic == "OR"
    then ltb 0 c.match_count
    else ltb 0 c.total_conditions && eqb c.match_count c.total_conditions

unfoldable pub matches : {F : Type 0} → Rule F → MatchContext → Bool
unfolding count_matches decide_logic
matches r ctx =
    if not r.active then false else decide_logic r.conditions.logic (count_matches r.conditions ctx)

-- `CalculateScore`
unfoldable pub calculate_score : {F : Type 0} ⦃fl : Float64 F⦄ → Rule F → F
calculate_score ⦃fl⦄ r =
    let base_score = fl.mul (fl.of_int r.priority) r.weight in
    if fl.gt r.actions.boost (fl.of_int (pos 0))
    then fl.mul base_score (fl.add (fl.of_int (pos 1)) r.actions.boost)
    else base_score
