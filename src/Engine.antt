-- ===== src/Engine.antt =====
-- internal/engine/rule_engine.go: the rules in memory, their index by mood, and the evaluation.
-- `RuleStore` is what the two queries of the repository answer: a `Load` asks twice, and nothing
-- says that the table is the same both times.
pub mod Index
pub mod Selection
pub mod Multiplicity
pub mod Order
use ctse_mood_rule_service.Common.{
  ℕ, String, Bool, Option, none, some, List, [], ◌∷◌, ◌++◌, ◌==◌, ltb, not, if◌then◌else◌, Dict,
  lookup, insert, length, filter, Error, wrap, Result, ok, err,
}
use ctse_mood_rule_service.Common.Int.{ℤ, pos, gtb_ℤ, eqb_ℤ}
use ctse_mood_rule_service.Float.{Float64}
use ctse_mood_rule_service.Model.{Rule, MatchContext}
use ctse_mood_rule_service.Match.{matches, calculate_score}
use ctse_mood_rule_service.Sort.{SortSlice}

pub record RuleStore (F : Type 0) : Type 0 where
  pub get_all_active_rules : Result (List (Rule F))
  pub get_max_version : Result ℤ

abbrev pub MoodIndex : Type 0 → Type 0
MoodIndex F = Dict (List (Rule F))

pub record RuleEngine (F : Type 0) : Type 0 where
  pub rules : List (Rule F)
  pub rules_by_mood : MoodIndex F
  pub version : ℤ

pub record EvaluationStats : Type 0 where
  pub rules_evaluated : ℕ
  pub rules_matched : ℕ
  pub duration : ℕ
  pub version : ℤ

-- `nil` for a missing key
pub or_nil {ℓ} : {A : Type ℓ} → Option (List A) → List A
or_nil none = []
or_nil (some xs) = xs

module _ {F : Type 0} where
  unfoldable pub new_rule_engine : RuleEngine F
  new_rule_engine = record { rules = []; rules_by_mood = []; version = pos 0 }

  -- `m[mood]`
  pub at_mood : String → MoodIndex F → List (Rule F)
  unfolding or_nil
  at_mood mood index = or_nil (lookup mood index)

  -- `m[mood] = append(m[mood], rule)`
  pub append_at : String → Rule F → MoodIndex F → MoodIndex F
  unfolding at_mood
  append_at mood rule index = insert mood (at_mood mood index ++ rule ∷ []) index

  pub append_at_all : List String → Rule F → MoodIndex F → MoodIndex F
  unfolding append_at
  append_at_all [] rule index = index
  append_at_all (mood ∷ moods) rule index = append_at_all moods rule (append_at mood rule index)

  -- One round of the loop of `buildIndex`.
  pub index_rule : Rule F → MoodIndex F → MoodIndex F
  unfolding append_at_all
  index_rule rule index =
      if ltb 0 (length rule.conditions.mood)
      then append_at_all rule.conditions.mood rule index
      else append_at "*" rule index

  pub index_rules : List (Rule F) → MoodIndex F → MoodIndex F
  unfolding index_rule
  index_rules [] index = index
  index_rules (rule ∷ rules) index = index_rules rules (index_rule rule index)

  unfoldable pub build_index : RuleEngine F → RuleEngine F
  unfolding index_rules
  build_index e = record e { rules_by_mood = index_rules e.rules [] }

  -- `Load`: the engine afterwards, and the error.
  unfoldable pub load : RuleStore F → RuleEngine F → RuleEngine F × Option Error
  unfolding build_index
  load store e = elim store.get_all_active_rules [
    | err x ↦ (e, some (wrap "failed to load rules" x))
    | ok rules ↦ elim store.get_max_version [
      | err x ↦ (e, some (wrap "failed to get max version" x))
      | ok version ↦ (build_index (record e { rules = rules; version = version }), none)
    ]
  ]

  unfoldable pub reload : RuleStore F → RuleEngine F → RuleEngine F × Option Error
  unfolding build_index
  reload store e = elim store.get_all_active_rules [
    | err x ↦ (e, some (wrap "failed to reload rules" x))
    | ok rules ↦ elim store.get_max_version [
      | err x ↦ (e, some (wrap "failed to get max version" x))
      | ok version ↦ (build_index (record e { rules = rules; version = version }), none)
    ]
  ]

  unfoldable pub get_version : RuleEngine F → ℤ
  get_version e = e.version

  unfoldable pub get_rule_count : RuleEngine F → ℕ
  get_rule_count e = length e.rules

  -- The rules of the mood, and those that match all moods.
  unfoldable pub candidate_rules : RuleEngine F → MatchContext → List (Rule F)
  unfolding at_mood
  candidate_rules e ctx = at_mood ctx.mood e.rules_by_mood ++ at_mood "*" e.rules_by_mood

  module _ ⦃fl : Float64 F⦄ where
    -- The `less` of `sort.Slice`.
    pub before : Rule F → Rule F → Bool
    before a b =
        if not (eqb_ℤ a.priority b.priority)
        then gtb_ℤ a.priority b.priority
        else fl.gt (calculate_score a) (calculate_score b)

    -- `Evaluate`; the last argument is the time that it measures.
    unfoldable pub evaluate :
        SortSlice (Rule F) → RuleEngine F → MatchContext → ℕ → List (Rule F) × EvaluationStats
    unfolding candidate_rules before
    evaluate slice e ctx duration =
        let candidates = candidate_rules e ctx in
        let matched = slice.sort before (filter (λ rule. matches rule ctx) candidates) in
        (
          matched,
          record {
            rules_evaluated = length candidates;
            rules_matched = length matched;
            duration = duration;
            version = e.version;
          },
        )
